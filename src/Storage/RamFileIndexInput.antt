-- ===== src/Storage/RamFileIndexInput.antt =====
-- RAMFileIndexInput of lib/IO/RAMFileIndexInput.h.
pub mod Memory
pub mod Promises
pub mod End
pub mod Seek
pub mod Termination
pub mod Values
use lucanthrope.Base.{
  ℕ, ◌+◌, ◌-◌, ◌/◌, ◌%◌, Bool, true, false, none, some, get_elem?, ltb, ◌==◌, if◌then◌else◌,
}
use lucanthrope.Exception.{Outcome, ok, aborts, undefined, Action, modify, ◌>>◌}
use lucanthrope.Io.IndexInput.{InputImpl}
use lucanthrope.Storage.RamFile.{RamFile, block_size}

-- The pointers `bufStart`, `bufCur`, `bufEnd` and `sentinel` are offsets in block `buf_block`; with
-- `buffered` false they are null. A committed file does not change, so it is kept by its value.
pub record RamInput : Type 0 where
  pub file : RamFile
  pub current_block : ℕ
  pub last_block : ℕ
  pub last_block_bytes : ℕ
  pub buffered : Bool
  pub buf_block : ℕ
  pub buf_start : ℕ
  pub buf_cur : ℕ
  pub buf_end : ℕ
  pub sentinel : ℕ
  pub pos : ℕ

-- The constructor, behind its assertion that the file is not empty.
unfoldable pub new_input : RamFile → RamInput
new_input f = record {
  file = f;
  current_block = 0;
  last_block = (f.length - 1) / block_size + 1;
  last_block_bytes = (f.length - 1) % block_size + 1;
  buffered = false;
  buf_block = 0;
  buf_start = 0;
  buf_cur = 0;
  buf_end = 0;
  sentinel = 0;
  pos = 0;
}

-- `set(file->blocks_[b], kBlockSize)`; to index past the end of the vector is undefined.
pub set_buffer : ℕ → Action RamInput (Unit {0})
set_buffer b s = elim (get_elem? s.file.blocks b) [
  | none ↦ undefined
  | some blk ↦
      ok tt (record s { buffered = true; buf_block = b; buf_start = 0; buf_end = block_size })
]

pub next_byte : Action RamInput ℕ
next_byte s = elim (get_elem? s.file.blocks s.buf_block) [
  | none ↦ undefined
  | some blk ↦
      if ltb s.buf_cur block_size
      then ok (blk s.buf_cur) (record s { buf_cur = s.buf_cur + 1 })
      else undefined
]

-- The sentinel of `initInternalBuffer`, which tests `last_block` itself.
pub init_internal_buffer : Action RamInput (Unit {0})
unfolding set_buffer
init_internal_buffer = do
  set_buffer 0
  modify (λ s. record s {
    buf_cur = s.buf_start;
    sentinel = if s.last_block == 0 then s.buf_start + s.last_block_bytes else s.buf_end;
  })

abbrev pub sentinel_of : RamInput → ℕ
sentinel_of s =
    if s.current_block == s.last_block then s.buf_start + s.last_block_bytes else s.buf_end

pub fill_impl : Action RamInput Bool
unfolding init_internal_buffer set_buffer
fill_impl s =
    let next = s.current_block + 1 in
    let first = (init_internal_buffer >> λ t. ok true t) s in
    let filled =
      (do
        set_buffer next
        modify (λ t. record t { buf_cur = t.buf_start; sentinel = sentinel_of t })
        λ t. ok true t)
        (record s { current_block = next }) in
    if ltb 0 (s.sentinel - s.buf_cur)
    then aborts
    else if s.buffered
    then (if s.current_block == s.last_block then ok false s else filled)
    else first

-- The operations that IndexInput is built on.
unfoldable pub ram_input : InputImpl RamInput
ram_input = record {
  get_num_readable_bytes = λ s. s.sentinel - s.buf_cur;
  next_byte = next_byte;
  fill_impl = fill_impl;
  move = λ n s. record s { pos = s.pos + n };
}

-- `pos` keeps its value.
pub seek : ℕ → Action RamInput (Unit {0})
unfolding set_buffer
seek seek_pos s =
    let block = seek_pos / block_size in
    let moved =
      (do
        set_buffer block
        modify (λ t. record t {
          buf_cur = t.buf_start + seek_pos % block_size;
          sentinel = sentinel_of t;
        }))
        (record s { current_block = block }) in
    if ltb seek_pos s.file.length then moved else aborts
