-- ===== src/Storage/RamFileIndexInput/Seek.antt =====
-- `seek` of RAMFileIndexInput.
use lucanthrope.Base.{
  ℕ, ◌+◌, ◌*◌, ◌/◌, ◌%◌, ◌≤◌, ◌<◌, ◌≡◌, refl, get_elem?-bounded, length, true, false, ltb, ◌==◌,
  arith,
}
use lucanthrope.Exception.{ok, aborts}
use lucanthrope.Storage.RamFile.{block_size}
use lucanthrope.Storage.RamFileIndexInput.{RamInput, seek}
use lucanthrope.Storage.RamFileIndexInput.Memory.{IsOpen, set_buffer_lem}

-- `seek` of a well-formed input stream to a byte of its file, whose blocks hold its length,
-- returns and leaves the cursor there; `pos` keeps its old value.
pub seek-IsOpen :
    (s : RamInput) (c q : ℕ)
    → IsOpen s c
    → s.file.length ≤ length s.file.blocks * block_size
    → q < s.file.length
    → (s' : RamInput) × (seek q s ≡ ok tt s') × IsOpen s' q × (s'.file ≡ s.file) × (s'.pos ≡ s.pos)
unfolding seek
seek-IsOpen s c q o fits h =
    let block : ℕ = q / block_size in
    let (blk, found) = get_elem?-bounded s.file.blocks block (omega arith) in
    let inside : ltb q s.file.length ≡ true = ground arith in
    let inner : (block == s.last_block) ≡ false = ground (arith, o.last) in
    (
      record s {
        current_block = block;
        buffered = true;
        buf_block = block;
        buf_start = 0;
        buf_cur = 0 + q % block_size;
        buf_end = block_size;
        sentinel = block_size;
      },
      rw (inside, set_buffer_lem (record s { current_block = block }) block blk found, inner),
      record {
        placed = ground (arith, inner, o.last);
        cursor = omega arith;
        not_empty = o.not_empty;
        last = o.last;
        last_bytes = o.last_bytes;
      },
      refl,
      refl,
    )

-- `seek` to or past the end of the file fails an assertion.
pub seek_past_end : (s : RamInput) (q : ℕ) → s.file.length ≤ q → seek q s ≡ aborts
unfolding seek
seek_past_end s q h = ground arith
