-- ===== src/Storage/RamFileIndexOutput/Flush.antt =====
-- `flush` of a RAMFileIndexOutput, between two writes.
use lucanthrope.Base.{
  ℕ, ◌-◌, ◌<◌, ◌≡◌, inl, inr, true, String, ltb, max, dec_lt, ◌==◌, if◌then◌else◌, Bool-cases, refl,
  arith,
}
use lucanthrope.Exception.{ok}
use lucanthrope.Io.IndexOutput.{flush, flush_non_empty}
use lucanthrope.Storage.RamFile.{Block}
use lucanthrope.Storage.RamFileIndexOutput.{
  RamOutput, ram_output, write_impl, update_length, set_buffer,
}
use lucanthrope.Storage.RamFileIndexOutput.Memory.{IsReady, Keeps}
use lucanthrope.Storage.RamFileIndexOutput.Growth.{advance_lem}

module _ (contents : ℕ → Block) (top : ℕ) (name : String) where
  -- A buffer that is not full keeps its place behind what it has.
  write_part :
      (s : RamOutput) (p : ℕ)
      → IsReady top name s p p
      → 0 < s.buf_cur - s.buf_start
      → 0 < s.buf_end - s.buf_cur
      → (s' : RamOutput) × (write_impl contents s ≡ ok tt s')
        × IsReady top name (record s' { buf_cur = s'.buf_start }) p p
        × Keeps s s'
  unfolding write_impl
  write_part s p r some room = (
    record (update_length s) { buf_start = s.buf_cur },
    ground arith,
    record {
      placed = ground (arith, r.placed);
      cursor = r.cursor;
      pos = r.pos;
      tall = ground (arith, r.tall, r.pos);
      named = r.named;
      length_fits = ground (arith, r.length_fits, r.pos, r.pos_fits);
      pos_fits = r.pos_fits;
    },
    λ i x b. b,
  )

  length-write_impl :
      (s s' : RamOutput)
      → write_impl contents s ≡ ok tt s'
      → s'.file.length ≡ max s.file.length s.pos
  unfolding write_impl set_buffer
  length-write_impl s s' e = ground (arith, e)

  pub write_impl_lem :
      (s : RamOutput) (p : ℕ)
      → IsReady top name s p p
      → 0 < s.buf_cur - s.buf_start
      → (s' : RamOutput) × (write_impl contents s ≡ ok tt s')
        × IsReady top name (record s' { buf_cur = s'.buf_start }) p p
        × Keeps s s'
  write_impl_lem s p r some = elim (dec_lt 0 (s.buf_end - s.buf_cur)) [
    | yes room ↦ write_part s p r some room
    | no full ↦
        let (s', e, r', _, _, same) =
          advance_lem contents top name s p r (ground (arith, r.placed)) (omega arith) in
        (s', e, r', same)
  ]

  -- `flush` of a well-formed stream at `p` returns; the bytes, the cursor and `pos` are as they
  -- were, the stream is well formed, and where the buffer was not empty the length of the file has
  -- grown to `p` if it was less.
  pub flush-IsReady :
      (s : RamOutput) (p : ℕ)
      → IsReady top name s p p
      → (s' : RamOutput) × (flush ⦃impl = ram_output contents⦄ s ≡ ok tt s')
        × IsReady top name s' p p
        × Keeps s s'
        × (s'.file.length
            ≡ (if s.buf_cur - s.buf_start == 0 then s.file.length else max s.file.length p))
  unfolding flush flush_non_empty ram_output
  flush-IsReady s p r = elim (Bool-cases (s.buf_cur - s.buf_start == 0)) [
    | inl empty ↦ (s, ground (arith, empty), r, λ i x b. b, ground (arith, empty))
    | inr some ↦
        let pending : 0 < s.buf_cur - s.buf_start = ground (arith, some) in
        let (s', e, r', same) = write_impl_lem s p r pending in
        let more : ltb 0 (s.buf_cur - s.buf_start) ≡ true = ground arith in
        (
          record s' { buf_cur = s'.buf_start },
          rw (some, more, e) refl,
          r',
          same,
          rw (some, ← r.pos) (length-write_impl s s' e),
        )
  ]
