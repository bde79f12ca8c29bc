-- ===== src/Storage/RamFileIndexOutput/Growth.antt =====
-- How a RAMFileIndexOutput gets a new buffer.
use lucanthrope.Base.{
  String, ℕ, ◌+◌, ◌*◌, ◌-◌, ◌≤◌, ◌<◌, ◌≡◌, inr, Bool, true, false, max, length, ◌==◌, if◌then◌else◌,
  arith, get_elem?-bounded, length-append, refl, ◌∙◌,
}
use lucanthrope.Exception.{ok}
use lucanthrope.Storage.RamFile.{RamFile, Block, Byte, ByteOf-append, block_size, alloc}
use lucanthrope.Storage.RamFileIndexOutput.{
  update_length, RamOutput, init_internal_buffer, write_impl, set_buffer,
}
use lucanthrope.Storage.RamFileIndexOutput.Memory.{IsReady, Keeps}

pub set_buffer_lem :
    (s : RamOutput) (b : ℕ)
    → b < length s.file.blocks
    → set_buffer b s
      ≡ ok tt (record s { buffered = true; buf_block = b; buf_start = 0; buf_end = block_size })
unfolding set_buffer
set_buffer_lem s b h = let (blk, e) = get_elem?-bounded s.file.blocks b h in rw (e, set_buffer)

module _ (contents : ℕ → Block) where
  length-alloc : (f : RamFile) → length (alloc contents f).blocks ≡ length f.blocks + 1
  length-alloc f = length-append f.blocks _

  pub init_lem :
      (top : ℕ) (name : String) (s : RamOutput) (c p : ℕ)
      → IsReady top name s c p
      → s.buffered ≡ false
      → (s' : RamOutput) × (init_internal_buffer contents s ≡ ok tt s')
        × IsReady top name s' c p
        × (0 < s'.buf_end - s'.buf_cur)
        × (s'.buffered ≡ true)
        × Keeps s s'
  unfolding init_internal_buffer
  init_lem top name s c p r h =
      let len = length-alloc s.file in
      let e = set_buffer_lem (record s { file = alloc contents s.file }) 0 (omega (arith, len)) in
      (
        record s {
          file = alloc contents s.file;
          buffered = true;
          buf_block = 0;
          buf_start = 0;
          buf_cur = 0;
          buf_end = block_size;
        },
        rw e,
        record {
          placed = ground (arith, h, len, r.placed);
          cursor = ground (arith, h, r.placed, r.cursor);
          pos = r.pos;
          tall = r.tall;
          named = r.named;
          length_fits = omega (arith, len, r.length_fits);
          pos_fits = omega (arith, len, r.pos_fits);
        },
        omega arith,
        refl,
        λ i x. ByteOf-append s.file.blocks _ i x,
      )

  -- The file that `writeImpl` and `seek` go on with, if `more` says that they need a new block.
  abbrev pub grown : Bool → RamOutput → RamFile
  grown more s = let f = (update_length s).file in if more then alloc contents f else f

  pub length-grown :
      (more : Bool) (s : RamOutput)
      → length (grown more s).blocks ≡ length s.file.blocks + (if more then 1 else 0)
  length-grown true s = length-alloc s.file
  length-grown false s = omega arith

  pub grown-Byte :
      (more : Bool) (s : RamOutput) (i x : ℕ) → Byte s.file i x → Byte (grown more s) i x
  grown-Byte true s i x b = ByteOf-append s.file.blocks _ i x b
  grown-Byte false s i x b = b

  pub named-grown : (more : Bool) (s : RamOutput) → (grown more s).name ≡ s.file.name
  named-grown true s = refl
  named-grown false s = refl

  pub length_fits-grown :
      (more : Bool) (s : RamOutput)
      → s.file.length ≤ length s.file.blocks * block_size
      → s.pos ≤ length s.file.blocks * block_size
      → (grown more s).length ≤ length (grown more s).blocks * block_size
  length_fits-grown more s h k = ground (arith, length-grown more s)

  pub length_only-grown :
      (more : Bool) (s : RamOutput) → (grown more s).length ≡ max s.file.length s.pos
  length_only-grown more s = ground arith

  tall-grown :
      (more : Bool) (top : ℕ) (name : String) (s : RamOutput) (c : ℕ)
      → max s.file.length s.pos ≡ max top c
      → s.pos ≡ c
      → max (grown more s).length s.pos ≡ max top c
  tall-grown more top name s c h e = omega (arith, length_only-grown more s)

  pub advance_lem :
      (top : ℕ) (name : String) (s : RamOutput) (c : ℕ)
      → IsReady top name s c c
      → s.buffered ≡ true
      → s.buf_end - s.buf_cur ≡ 0
      → (s' : RamOutput) × (write_impl contents s ≡ ok tt s')
        × IsReady top name (record s' { buf_cur = s'.buf_start }) c c
        × (0 < s'.buf_end - s'.buf_start)
        × (s'.buffered ≡ true)
        × Keeps s s'
  unfolding write_impl
  advance_lem top name s c r h full =
      let at_end : (s.buf_cur == s.buf_end) ≡ true = ground (arith, h, r.placed) in
      let last : Bool = s.current_block + 1 == length s.file.blocks in
      let len = length-grown last s in
      let next_block : ℕ = s.current_block + 1 in
      let next : next_block < length (grown last s).blocks = ground (arith, h, r.placed, len) in
      let e =
        set_buffer_lem (record s { file = grown last s; current_block = next_block }) next_block
          next in
      (
        record s {
          file = grown last s;
          current_block = next_block;
          buffered = true;
          buf_block = next_block;
          buf_start = 0;
          buf_end = block_size;
        },
        rw at_end e,
        record {
          placed = inr (refl, next, refl, refl, omega arith, omega arith, omega arith);
          cursor = ground (arith, h, full, r.placed, r.cursor);
          pos = r.pos;
          tall = tall-grown last top name s c r.tall r.pos;
          named = named-grown last s ∙ r.named;
          length_fits = length_fits-grown last s r.length_fits (omega (arith, r.pos, r.pos_fits));
          pos_fits = omega (arith, len, r.pos_fits);
        },
        omega arith,
        refl,
        grown-Byte last s,
      )
