-- ===== src/Storage/RamFile.antt =====
-- RAMDirectory::RAMFile of include/lucanthrope/storage/RAMDirectory.h.
use lucanthrope.Base.{
  ℕ, ◌+◌, ◌*◌, ◌<◌, ◌≢◌, ◌∙◌, sym, ap, set, get_elem?-append, get_elem?-lt, get_elem?-set_self,
  get_elem?-set_ne, ℕ_discrete, ◌==◌, if◌then◌else◌, arith, ◌/◌, ◌%◌, ◌≡◌, List, [], ◌∷◌, ◌++◌,
  some, get_elem?, length, String,
}

abbrev pub block_size : ℕ
block_size = 4096

-- The bytes of a block by their offset.
abbrev pub Block : Type 0
Block = ℕ → ℕ

-- The pointer to the directory is left out: a file is only ever used with the one that owns it.
pub record RamFile : Type 0 where
  pub blocks : List Block
  pub length : ℕ
  pub refs : ℕ
  pub last_modified : ℕ
  pub name : String

-- `RAMFile(d, fname)`
abbrev pub new_file : String → RamFile
new_file fname = record { blocks = []; length = 0; refs = 0; last_modified = 0; name = fname }

-- What `new char[kBlockSize]` contains is indeterminate: it is `contents` of the block's number.
abbrev pub alloc : (ℕ → Block) → RamFile → RamFile
alloc contents f = record f { blocks = f.blocks ++ (contents (length f.blocks) ∷ []) }

-- `block[i] = c`
abbrev pub store : Block → ℕ → ℕ → Block
store blk i c j = if j == i then c else blk j

-- Byte `i` of the memory in `blocks` is `b`.
abbrev pub ByteOf : List Block → ℕ → ℕ → Type 0
ByteOf blocks i b =
    (blk : Block) × (get_elem? blocks (i / block_size) ≡ some blk) × (blk (i % block_size) ≡ b)

abbrev pub Byte : RamFile → ℕ → ℕ → Type 0
Byte f = ByteOf f.blocks

module _ (blocks : List Block) where
  pub ByteOf-append :
      (more : List Block) (i b : ℕ) → ByteOf blocks i b → ByteOf (blocks ++ more) i b
  ByteOf-append more i b (blk, e, v) = (blk, get_elem?-append blocks more _ e, v)

  module _ (blk : Block) (n cur v : ℕ) (here : get_elem? blocks n ≡ some blk)
      (fits : cur < block_size) where
    pub ByteOf-set_self :
        (c : ℕ) → n * block_size + cur ≡ c → ByteOf (set blocks n (store blk cur v)) c v
    ByteOf-set_self c e =
        let block : c / block_size ≡ n = omega arith in
        let offset : c % block_size ≡ cur = omega arith in
        (
          store blk cur v,
          rw block (get_elem?-set_self blocks n _ (get_elem?-lt blocks n here)),
          rw offset (ground arith),
        )

    pub ByteOf-set_ne :
        (c i x : ℕ)
        → n * block_size + cur ≡ c
        → i ≢ c
        → ByteOf blocks i x
        → ByteOf (set blocks n (store blk cur v)) i x
    ByteOf-set_ne c i x e ne (other, at, val) = elim (ℕ_discrete (i / block_size) n) [
      | yes same ↦
          let offset : i % block_size ≢ cur = omega arith in
          let found : get_elem? blocks n ≡ some other = rw same at at in
          let equal : blk ≡ other = cc (here, found) in
          (
            store blk cur v,
            rw same (get_elem?-set_self blocks n _ (get_elem?-lt blocks n here)),
            ground (arith, ap (λ (f : Block). f (i % block_size)) equal),
          )
      | no differs ↦ (other, get_elem?-set_ne blocks _ (λ p. differs (sym p)) ∙ at, val)
    ]
