-- ===== src/Io/IndexOutput/Bytes.antt =====
-- What `writeByte` does on a stream that keeps the promises of `IsSink`.
use lucanthrope.Base.{
  ℕ, suc, ◌+◌, ◌<◌, ◌≡◌, inl, inr, true, false, [], ◌∷◌, ◌==◌, dec_lt, Bool-cases, arith,
}
use lucanthrope.Exception.{ok}
use lucanthrope.Io.IndexOutput.{OutputImpl, write_byte_rounds, write_byte}
use lucanthrope.Io.IndexOutput.Sink.{IsSink, Wrote}
use lucanthrope.Io.IndexOutput.Writes.{Same-Wrote, flush_full, Writes}

module _ {S : Type 0} {impl : OutputImpl S} (sink : IsSink impl) where
  open sink use {Ready}

  -- `pos++; *bufCur++ = c`
  move_and_store :
      (c : ℕ) (s : S) (p : ℕ)
      → Ready s p p
      → 0 < impl.available s
      → (s' : S) × (impl.store_byte c (impl.move 1 s) ≡ ok tt s') × Writes sink p (c ∷ []) s s'
  move_and_store c s p r h =
      let (r1, a1, _) = sink.move_lem s p p 1 r in
      let (s1, e1, r2, _, _, byte, kept) =
        sink.store (impl.move 1 s) p (p + 1) c r1 (omega arith) in
      (
        s1,
        e1,
        (
          r2,
          record {
            holds = (byte, tt);
            kept = λ i x out old. elim out [
              | inl before ↦ kept i x (omega arith) (sink.move-Byte s 1 i x old)
              | inr after ↦ kept i x (omega arith) (sink.move-Byte s 1 i x old)
            ];
          },
        ),
      )

  write_byte_buffered :
      (rounds c : ℕ) (s : S) (p : ℕ)
      → Ready s p p
      → impl.has_buffer s ≡ true
      → (s' : S) × (write_byte_rounds ⦃impl = impl⦄ (suc rounds) c s ≡ ok tt s')
        × Writes sink p (c ∷ []) s s'
  unfolding write_byte_rounds
  write_byte_buffered rounds c s p r h = elim (dec_lt 0 (impl.available s)) [
    | yes room ↦
        let (s1, e1, w) = move_and_store c s p r room in
        let test : (impl.available s == 0) ≡ false = ground arith in (s1, rw test e1, w)
    | no none ↦
        let (s1, e1, r1, a1, _, same) = flush_full sink s p r h (omega arith) in
        let (s2, e2, w) = move_and_store c s1 p r1 a1 in
        let test : (impl.available s == 0) ≡ true = ground arith in
        (s2, rw (test, h, e1) e2, (w.0, Same-Wrote sink s s1 s2 p (c ∷ []) same w.1))
  ]

  -- `writeByte` at position `p` of a well-formed stream returns; it leaves the byte at `p` and the
  -- cursor and `pos` behind it, and changes no other byte of the file.
  pub write_byte_lem :
      (c : ℕ) (s : S) (p : ℕ)
      → Ready s p p
      → (s' : S) × (write_byte ⦃impl = impl⦄ c s ≡ ok tt s')
        × Ready s' (p + 1) (p + 1)
        × Wrote sink s p (c ∷ []) s'
  unfolding write_byte
  write_byte_lem c s p r = elim (Bool-cases (impl.has_buffer s)) [
    | inl there ↦ let (s1, e1, w) = write_byte_buffered 1 c s p r there in (s1, e1, w.0, w.1)
    | inr missing ↦
        let (s1, e1, r1, _, h1, same) = sink.init s p p r missing in
        let (s2, e2, w) = write_byte_buffered 0 c s1 p r1 h1 in
        let test : (impl.available s == 0) ≡ true = ground (arith, sink.empty s p p r missing) in
        (
          s2,
          unfold write_byte_rounds in rw (test, missing, e1) (unfold write_byte_rounds in e2),
          w.0,
          Same-Wrote sink s s1 s2 p (c ∷ []) same w.1,
        )
  ]
