-- ===== src/Storage/RamFileIndexOutput/Seek.antt =====
-- `seek` of RAMFileIndexOutput.
use lucanthrope.Base.{
  String, ℕ, ◌+◌, ◌*◌, ◌/◌, ◌%◌, ◌≤◌, ◌<◌, ◌≡◌, inr, Bool, true, false, length, leb, ◌==◌, arith,
  refl, ◌∙◌,
}
use lucanthrope.Exception.{ok, aborts}
use lucanthrope.Storage.RamFile.{RamFile, Block, block_size}
use lucanthrope.Storage.RamFileIndexOutput.{update_length, RamOutput, seek, close}
use lucanthrope.Storage.RamFileIndexOutput.Memory.{IsReady, Keeps}
use lucanthrope.Storage.RamFileIndexOutput.Growth.{
  set_buffer_lem, grown, length-grown, length_fits-grown, length_only-grown, grown-Byte,
  named-grown,
}

module _ (contents : ℕ → Block) where
  -- `seek` of a well-formed output stream, to a byte that was written or to just behind them,
  -- returns and leaves cursor and `pos` there; it changes no byte, and the file keeps its
  -- length.
  pub seek-IsReady :
      (top : ℕ) (name : String) (s : RamOutput) (p q : ℕ)
      → IsReady top name s p p
      → q ≤ (close s).length
      → (s' : RamOutput) × (seek contents q s ≡ ok tt s')
        × IsReady (close s).length name s' q q
        × Keeps s s'
  unfolding seek close
  seek-IsReady top name s p q r h =
      let f : RamFile = (update_length s).file in
      let reached : leb q f.length ≡ true = ground arith in
      let block : ℕ = q / block_size in
      let more : Bool = block == length s.file.blocks in
      let len = length-grown contents more s in
      let fits =
        length_fits-grown contents more s r.length_fits (omega (arith, r.pos, r.pos_fits)) in
      let within : f.length ≤ length s.file.blocks * block_size =
        length_fits-grown contents false s r.length_fits (omega (arith, r.pos, r.pos_fits)) in
      let there : block < length (grown contents more s).blocks = ground (arith, len) in
      let e =
        set_buffer_lem (record s { file = grown contents more s; current_block = block }) block
          there in
      (
        record s {
          file = grown contents more s;
          current_block = block;
          buffered = true;
          buf_block = block;
          buf_start = 0;
          buf_cur = 0 + q % block_size;
          buf_end = block_size;
          pos = q;
        },
        rw (reached, e),
        record {
          placed = inr (refl, there, refl, refl, omega arith, omega arith, omega arith);
          cursor = omega arith;
          pos = refl;
          tall = ground (arith, length_only-grown contents more s);
          named = named-grown contents more s ∙ r.named;
          length_fits = fits;
          pos_fits = omega (arith, len);
        },
        grown-Byte contents more s,
      )

  -- `seek` past the end of what was written fails an assertion.
  pub seek_past_end : (s : RamOutput) (q : ℕ) → (close s).length < q → seek contents q s ≡ aborts
  unfolding seek close
  seek_past_end s q h = ground arith
