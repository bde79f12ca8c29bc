-- ===== src/Storage/RamFileIndexInput/Memory.antt =====
-- The memory behind a RAMFileIndexInput, and where its cursor stands.
use lucanthrope.Base.{
  ℕ, ◌+◌, ◌*◌, ◌-◌, ◌/◌, ◌%◌, ◌≤◌, ◌<◌, ◌≡◌, ◌⊎◌, inl, refl, Bool, true, false, List, [], ◌∷◌, some,
  get_elem?, length, ◌==◌, if◌then◌else◌, arith,
}
use lucanthrope.Exception.{ok}
use lucanthrope.Storage.RamFile.{RamFile, Block, Byte, block_size}
use lucanthrope.Storage.RamFileIndexInput.{RamInput, new_input, set_buffer}

-- Where the stream reports its end: `last_block_bytes` into block `last_block`.
abbrev pub end_of : RamInput → ℕ
end_of s = s.last_block * block_size + s.last_block_bytes

-- No buffer yet, or a buffer that lies in the current block.
abbrev pub Placed : RamInput → Type 0
Placed s =
    ((s.buffered ≡ false) × (s.current_block ≡ 0) × (s.buf_cur ≡ 0) × (s.sentinel ≡ 0))
    ⊎ ((s.buffered ≡ true)
        × (s.buf_block ≡ s.current_block)
        × (s.current_block ≤ s.last_block)
        × (s.current_block < length s.file.blocks)
        × (s.buf_cur ≤ s.sentinel)
        × (s.sentinel
            ≡ (if s.current_block == s.last_block then s.last_block_bytes else block_size)))

-- The stream is well formed, with the cursor at byte `c` of the file.
pub record IsOpen (s : RamInput) (c : ℕ) : Type 0 where
  pub placed : Placed s
  pub cursor : s.current_block * block_size + s.buf_cur ≡ c
  -- What the constructor computed from the length of the file.
  pub not_empty : 0 < s.file.length
  pub last : s.last_block ≡ (s.file.length - 1) / block_size + 1
  pub last_bytes : s.last_block_bytes ≡ (s.file.length - 1) % block_size + 1

pub new_input-IsOpen : (f : RamFile) → 0 < f.length → IsOpen (new_input f) 0
unfolding new_input
new_input-IsOpen f h = record {
  placed = inl (refl, refl, refl, refl);
  cursor = omega arith;
  not_empty = h;
  last = refl;
  last_bytes = refl;
}

-- The file holds `bs` from byte `p` on.
abbrev pub Holds : RamFile → ℕ → List ℕ → Type 0
Holds f p [] = Unit {0}
Holds f p (b ∷ bs) = Byte f p b × Holds f (p + 1) bs

-- The bytes end at the end `e` of the stream, or at byte `mark`, which is not behind it.
abbrev pub Reaches : ℕ → Bool → ℕ → ℕ → Type 0
Reaches mark true e n = n ≡ e
Reaches mark false e n = (n ≡ mark) × (n ≤ e)

pub Reaches-le : (mark : ℕ) (ends : Bool) (e n : ℕ) → Reaches mark ends e n → n ≤ e
Reaches-le mark true e n h = omega arith
Reaches-le mark false e n h = h.1

pub set_buffer_lem :
    (s : RamInput) (b : ℕ) (blk : Block)
    → get_elem? s.file.blocks b ≡ some blk
    → set_buffer b s
      ≡ ok tt (record s { buffered = true; buf_block = b; buf_start = 0; buf_end = block_size })
unfolding set_buffer
set_buffer_lem s b blk e = rw (e, set_buffer)
