-- ===== src/Storage/RamFileIndexOutput/Memory.antt =====
-- The memory behind a RAMFileIndexOutput, and the store of a byte.
use lucanthrope.Base.{
  String, ℕ, ◌+◌, ◌*◌, ◌-◌, ◌≤◌, ◌<◌, ◌≡◌, ◌≢◌, ◌⊎◌, true, false, some, get_elem?, set, max, length,
  arith, get_elem?-bounded, length-set, refl,
}
use lucanthrope.Exception.{ok}
use lucanthrope.Storage.RamFile.{Block, Byte, store, ByteOf-set_self, ByteOf-set_ne, block_size}
use lucanthrope.Storage.RamFileIndexOutput.{RamOutput, store_byte}

-- No buffer and no block yet, or a buffer that lies in the current block.
abbrev pub Placed : RamOutput → Type 0
Placed s =
    ((s.buffered ≡ false)
      × (length s.file.blocks ≡ 0)
      × (s.current_block ≡ 0)
      × (s.buf_cur ≡ 0)
      × (s.buf_end ≡ 0))
    ⊎ ((s.buffered ≡ true)
        × (s.current_block < length s.file.blocks)
        × (s.buf_block ≡ s.current_block)
        × (s.buf_end ≡ block_size)
        × (s.buf_start < block_size)
        × (s.buf_start ≤ s.buf_cur)
        × (s.buf_cur ≤ block_size))

-- The stream is well formed, with the cursor at byte `c` of the file and `pos` at `p`, and the file
-- will be `top` bytes long when it is closed, or `p` bytes if that is more.
pub record IsReady (top : ℕ) (name : String) (s : RamOutput) (c p : ℕ) : Type 0 where
  pub placed : Placed s
  pub cursor : s.current_block * block_size + s.buf_cur ≡ c
  pub pos : s.pos ≡ p
  pub tall : max s.file.length s.pos ≡ max top p
  pub named : s.file.name ≡ name
  pub length_fits : s.file.length ≤ length s.file.blocks * block_size
  pub pos_fits : c ≤ length s.file.blocks * block_size

-- A stream in its current block, and the block.
in_block :
    (top : ℕ) (name : String) (s : RamOutput) (c p : ℕ)
    → IsReady top name s c p
    → 0 < s.buf_end - s.buf_cur
    → (blk : Block) × (get_elem? s.file.blocks s.buf_block ≡ some blk)
      × (s.buf_block * block_size + s.buf_cur ≡ c)
      × (s.buf_cur < block_size)
in_block top name s c p r room =
    let (blk, e) = get_elem?-bounded s.file.blocks s.buf_block (ground (arith, r.placed)) in
    (blk, e, ground (arith, r.placed, r.cursor), ground (arith, r.placed))

pub store_byte_lem :
    (top : ℕ) (name : String) (s : RamOutput) (c p b : ℕ)
    → IsReady top name s c p
    → 0 < s.buf_end - s.buf_cur
    → (s' : RamOutput) × (store_byte b s ≡ ok tt s')
      × IsReady top name s' (c + 1) p
      × (s'.buf_end - s'.buf_cur + 1 ≡ s.buf_end - s.buf_cur)
      × (s'.buffered ≡ s.buffered)
      × Byte s'.file c b
      × ((i x : ℕ) → i ≢ c → Byte s.file i x → Byte s'.file i x)
unfolding store_byte
store_byte_lem top name s c p b r room =
    let (blk, e, at, fits) = in_block top name s c p r room in
    let len = length-set s.file.blocks s.buf_block (store blk s.buf_cur b) in
    (
      record s {
        file = record (s.file) { blocks = set s.file.blocks s.buf_block (store blk s.buf_cur b) };
        buf_cur = s.buf_cur + 1;
      },
      ground (arith, e),
      record {
        placed = ground (arith, len, r.placed);
        cursor = ground (arith, r.cursor);
        pos = r.pos;
        tall = r.tall;
        named = r.named;
        length_fits = ground (arith, len, r.length_fits);
        pos_fits = ground (arith, len, r.placed, r.cursor, r.pos_fits);
      },
      omega arith,
      refl,
      ByteOf-set_self s.file.blocks blk s.buf_block s.buf_cur b e fits c at,
      λ i x ne. ByteOf-set_ne s.file.blocks blk s.buf_block s.buf_cur b e fits c i x at ne,
    )

-- What a step that writes no byte does to the bytes of the file.
abbrev pub Keeps : RamOutput → RamOutput → Type 0
Keeps s t = (i x : ℕ) → Byte s.file i x → Byte t.file i x
