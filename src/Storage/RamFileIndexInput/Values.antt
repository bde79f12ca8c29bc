-- ===== src/Storage/RamFileIndexInput/Values.antt =====
-- The types of what the reading functions return.
pub mod Reading
use mathlib.Core.Path.{subst}
use lucanthrope.Base.{
  ℕ, zero, suc, ◌+◌, ◌*◌, ◌-◌, ◌%◌, ◌^◌, ◌≤◌, ◌<◌, ◌≡◌, refl, min, bit_and, bit_or, Bool, true,
  some, none, List, [], ◌∷◌, ◌++◌, length, get_elem?, get_or, ltb, ◌==◌, All, All-append,
  length-append, Option-cases, inl, inr, arith,
}
use lucanthrope.Base.Bits.{bit_or_lt}
use lucanthrope.Exception.{Outcome, ok, Action, Gives, Gives-continue, Gives-if}
use lucanthrope.Io.IndexInput.{
  eof, read_byte, copy_bytes, read_loop, read, int32_value, int64_value, read_int32, read_int64,
  add_group, varint_loop, read_varint32, read_varint64, push_bytes, read_string,
}
use lucanthrope.Io.Items.{Item, Kind, read_item, read_items}
use lucanthrope.Storage.RamFile.{RamFile, Block}
use lucanthrope.Storage.RamFileIndexInput.{
  RamInput, new_input, set_buffer, next_byte, init_internal_buffer, fill_impl, ram_input,
}

-- The memory of a file holds bytes, also where none was written.
abbrev pub HasBytes : RamFile → Type 0
HasBytes f = (n i : ℕ) (blk : Block) → get_elem? f.blocks n ≡ some blk → blk i < 2 ^ 8

abbrev pub AreBytes : List ℕ → Type 0
AreBytes = All (λ b. b < 2 ^ 8)

-- The types of what is read; fewer bytes than wanted may be there.
abbrev pub Fits : Kind → Item → Type 0
Fits Kind.byte (Item.byte n) = n < 2 ^ 8
Fits Kind.int32 (Item.int32 n) = n < 2 ^ 32
Fits Kind.int64 (Item.int64 n) = n < 2 ^ 64
Fits Kind.varint32 (Item.varint32 n) = n < 2 ^ 32
Fits Kind.varint64 (Item.varint64 n) = n < 2 ^ 64
Fits (Kind.bytes size) (Item.bytes bs) = AreBytes bs × (length bs ≤ size)
Fits Kind.string (Item.string str) = AreBytes str × (length str < 2 ^ 32)
Fits k x = ⊥

abbrev pub AllFit : List Kind → List Item → Type 0
AllFit [] [] = Unit {0}
AllFit (k ∷ ks) (x ∷ xs) = Fits k x × AllFit ks xs
AllFit ks xs = ⊥

pub int32_value_lem : (bs : List ℕ) → int32_value bs < 2 ^ 32
unfolding int32_value
int32_value_lem bs =
    bit_or_lt 32 _ _ (bit_or_lt 32 _ _ (bit_or_lt 32 _ _ (omega arith) (omega arith)) (omega arith))
      (omega arith)

pub int64_value_lem : (bs : List ℕ) → int64_value bs < 2 ^ 64
unfolding int64_value
int64_value_lem bs =
    bit_or_lt 64 _ _
      (bit_or_lt 64 _ _
        (bit_or_lt 64 _ _
          (bit_or_lt 64 _ _
            (bit_or_lt 64 _ _
              (bit_or_lt 64 _ _ (bit_or_lt 64 _ _ (omega arith) (omega arith)) (omega arith))
              (omega arith))
            (omega arith))
          (omega arith))
        (omega arith))
      (omega arith)
