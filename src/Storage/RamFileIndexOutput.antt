-- ===== src/Storage/RamFileIndexOutput.antt =====
-- RAMFileIndexOutput of lib/IO/RAMFileIndexOutput.h.
pub mod Memory
pub mod Growth
pub mod Seek
pub mod Flush
pub mod Promises
use lucanthrope.Base.{
  ℕ, ◌+◌, ◌*◌, ◌-◌, ◌/◌, ◌%◌, Bool, true, false, String, List, Option, none, some, get_elem?, set,
  length, ltb, leb, ◌==◌, if◌then◌else◌,
}
use lucanthrope.Exception.{Outcome, ok, aborts, undefined, Action, modify, ◌>>◌}
use lucanthrope.Io.IndexOutput.{OutputImpl}
use lucanthrope.Storage.RamFile.{store, RamFile, Block, block_size, new_file, alloc}

-- The pointers `bufStart`, `bufCur` and `bufEnd` are offsets in block `buf_block`; with `buffered`
-- false they are null.
pub record RamOutput : Type 0 where
  pub file : RamFile
  pub current_block : ℕ
  pub buffered : Bool
  pub buf_block : ℕ
  pub buf_start : ℕ
  pub buf_cur : ℕ
  pub buf_end : ℕ
  pub pos : ℕ

unfoldable pub new_output : String → RamOutput
new_output fname = record {
  file = new_file fname;
  current_block = 0;
  buffered = false;
  buf_block = 0;
  buf_start = 0;
  buf_cur = 0;
  buf_end = 0;
  pos = 0;
}

-- `set(file->blocks_[b], kBlockSize)`; to index past the end of the vector is undefined.
pub set_buffer : ℕ → RamOutput → Outcome RamOutput (Unit {0})
set_buffer b s = elim (get_elem? s.file.blocks b) [
  | none ↦ undefined
  | some blk ↦
      ok tt (record s { buffered = true; buf_block = b; buf_start = 0; buf_end = block_size })
]

-- `if (file->length < pos) file->length = pos`
abbrev pub update_length : RamOutput → RamOutput
update_length s = record s {
  file = record (s.file) { length = if ltb s.file.length s.pos then s.pos else s.file.length };
}

-- `*bufCur++ = c`
pub store_byte : ℕ → Action RamOutput (Unit {0})
store_byte c s = elim (get_elem? s.file.blocks s.buf_block) [
  | none ↦ undefined
  | some blk ↦
      if ltb s.buf_cur block_size
      then ok tt (record s {
        file = record (s.file) { blocks = set s.file.blocks s.buf_block (store blk s.buf_cur c) };
        buf_cur = s.buf_cur + 1;
      })
      else undefined
]

-- Where the bytes of new blocks come from.
module _ (contents : ℕ → Block) where
  pub init_internal_buffer : Action RamOutput (Unit {0})
  unfolding set_buffer
  init_internal_buffer s =
      (do set_buffer 0; modify (λ t. record t { buf_cur = t.buf_start }))
        (record s { file = alloc contents s.file })

  -- `current_block == blocks_.size() - 1`; with no block the difference is 2 ^ 64 - 1.
  abbrev at_last_block : RamOutput → Bool
  at_last_block s = s.current_block + 1 == length s.file.blocks

  -- `bufCur` keeps its offset until `flushNonEmpty` resets it.
  pub write_impl : Action RamOutput (Unit {0})
  unfolding set_buffer
  write_impl s =
      let t = update_length s in
      let grown = if at_last_block t then alloc contents t.file else t.file in
      let next = t.current_block + 1 in
      if t.buf_cur == t.buf_end
      then set_buffer next (record t { file = grown; current_block = next })
      else ok tt (record t { buf_start = t.buf_cur })

  -- The operations that IndexOutput is built on.
  pub ram_output : OutputImpl RamOutput
  unfolding store_byte init_internal_buffer write_impl
  ram_output = record {
    has_buffer = λ s. s.buffered;
    available = λ s. s.buf_end - s.buf_cur;
    get_num_writable_bytes = λ s. s.buf_cur - s.buf_start;
    store_byte = store_byte;
    init_internal_buffer = init_internal_buffer;
    write_impl = write_impl;
    reset_cursor = λ s. record s { buf_cur = s.buf_start };
    move = λ n s. record s { pos = s.pos + n };
  }

  pub seek : ℕ → Action RamOutput (Unit {0})
  unfolding set_buffer
  seek seek_pos s =
      let t = update_length s in
      let block = seek_pos / block_size in
      let grown = if block == length t.file.blocks then alloc contents t.file else t.file in
      if leb seek_pos t.file.length
      then (do
        set_buffer block
        modify (λ u. record u { buf_cur = u.buf_start + seek_pos % block_size; pos = seek_pos }))
          (record t { file = grown; current_block = block })
      else aborts

-- What the destructor hands to `finish_writing`.
unfoldable pub close : RamOutput → RamFile
close s = (update_length s).file
