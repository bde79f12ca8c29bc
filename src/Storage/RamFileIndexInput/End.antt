-- ===== src/Storage/RamFileIndexInput/End.antt =====
-- Where RAMFileIndexInput reports the end of its file.
use lucanthrope.Base.{
  ℕ, ◌+◌, ◌*◌, ◌-◌, ◌%◌, ◌≡◌, ◌≢◌, none, get_elem?, get_elem?-none, length, true, false, ltb, ◌==◌,
  arith,
}
use lucanthrope.Exception.{ok, undefined}
use lucanthrope.Io.IndexInput.{eof}
use lucanthrope.Storage.RamFile.{block_size}
use lucanthrope.Storage.RamFileIndexInput.{RamInput, fill_impl, set_buffer, ram_input}
use lucanthrope.Storage.RamFileIndexInput.Memory.{IsOpen, end_of}

-- The stream goes on for one block more than the file is long.
pub end_of-length : (s : RamInput) (c : ℕ) → IsOpen s c → end_of s ≡ s.file.length + block_size
end_of-length s c z = omega (arith, z.last, z.last_bytes, z.not_empty)

-- With all bytes of a file read whose length is no multiple of the block size, the stream does
-- not report its end: bytes of the block that were never written are still to be read.
pub eof_missed :
    (s : RamInput)
    → IsOpen s s.file.length
    → s.file.length % block_size ≢ 0
    → eof ⦃impl = ram_input⦄ s ≡ ok false s
unfolding eof ram_input
eof_missed s o h =
    let pending : ltb 0 (s.sentinel - s.buf_cur) ≡ true =
      ground (arith, o.placed, o.cursor, o.last, o.not_empty) in
    rw pending

set_buffer_undefined :
    (s : RamInput) (b : ℕ) → get_elem? s.file.blocks b ≡ none → set_buffer b s ≡ undefined
unfolding set_buffer
set_buffer_undefined s b e = rw (e, set_buffer)

-- With all bytes read of a file that fills all its blocks, the test for the end of the stream
-- reads past the end of `blocks_`.
pub eof_undefined :
    (s : RamInput)
    → IsOpen s s.file.length
    → s.file.length ≡ length s.file.blocks * block_size
    → eof ⦃impl = ram_input⦄ s ≡ undefined
unfolding eof ram_input fill_impl
eof_undefined s o h =
    let pending : ltb 0 (s.sentinel - s.buf_cur) ≡ false =
      ground (arith, h, o.placed, o.cursor, o.last, o.last_bytes, o.not_empty) in
    let there : s.buffered ≡ true = ground (arith, o.placed, o.cursor, o.not_empty) in
    let inner : (s.current_block == s.last_block) ≡ false =
      ground (arith, h, o.placed, o.cursor, o.last, o.not_empty) in
    let none_left : get_elem? s.file.blocks (s.current_block + 1) ≡ none =
      get_elem?-none s.file.blocks _ (ground (arith, h, o.placed, o.cursor)) in
    let fault =
      set_buffer_undefined (record s { current_block = s.current_block + 1 }) _ none_left in
    rw (pending, there, inner, fault)
