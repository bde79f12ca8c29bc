-- ===== src/Io/Decoder.antt =====
-- What the functions of IndexInput should make of a list of bytes, as functions on lists: integers
-- have their lowest byte first, varints their lowest seven bits.
pub mod Groups
pub mod Varints
pub mod Reads
pub mod Sequences
use lucanthrope.Base.{
  ℕ, zero, suc, ◌+◌, ◌*◌, ◌%◌, ◌^◌, List, [], ◌∷◌, length, ltb, leb, take, drop, if◌then◌else◌,
}
use lucanthrope.Io.Items.{Item, Kind}

-- A value and the bytes behind it; or the bytes are corrupt, and these are left.
pub data Decoded (A : Type 0) : Type 0 where
  got : A → List ℕ → Decoded A
  corrupt : List ℕ → Decoded A

abbrev pub and_then : {A B : Type 0} → Decoded A → (A → List ℕ → Decoded B) → Decoded B
and_then (got x rest) f = f x rest
and_then (corrupt rest) f = corrupt rest

abbrev pub mapped : {A B : Type 0} → (A → B) → Decoded A → Decoded B
mapped f v = and_then v λ x rest. got (f x) rest

-- The number of a varint of at most so many bytes; all but the last have the top bit set.
pub decode_groups : ℕ → List ℕ → Decoded ℕ
decode_groups zero xs = corrupt xs
decode_groups (suc k) [] = corrupt []
decode_groups (suc k) (x ∷ xs) =
    let rest = mapped (λ n. x % 128 + 128 * n) (decode_groups k xs) in
    if ltb x 128 then got x xs else rest

-- The bits of the number that do not fit into the word are lost.
pub decode_varint : ℕ → ℕ → List ℕ → Decoded ℕ
unfolding decode_groups
decode_varint width k xs = mapped (λ n. n % 2 ^ width) (decode_groups k xs)

pub number_of : List ℕ → ℕ
number_of [] = 0
number_of (b ∷ bs) = b + 256 * number_of bs

-- Just so many bytes.
pub decode_bytes : ℕ → List ℕ → Decoded (List ℕ)
decode_bytes n xs = if leb n (length xs) then got (take n xs) (drop n xs) else corrupt []

pub decode_item : Kind → List ℕ → Decoded Item
unfolding decode_varint number_of decode_bytes
decode_item Kind.byte [] = corrupt []
decode_item Kind.byte (x ∷ xs) = got (Item.byte x) xs
decode_item Kind.int32 xs = mapped Item.int32 (mapped number_of (decode_bytes 4 xs))
decode_item Kind.int64 xs = mapped Item.int64 (mapped number_of (decode_bytes 8 xs))
decode_item Kind.varint32 xs = mapped Item.varint32 (decode_varint 32 5 xs)
decode_item Kind.varint64 xs = mapped Item.varint64 (decode_varint 64 10 xs)
decode_item (Kind.bytes size) xs = got (Item.bytes (take size xs)) (drop size xs)
decode_item Kind.string xs =
    mapped Item.string (and_then (decode_varint 32 5 xs) λ n rest. decode_bytes n rest)

unfoldable pub decode_items : List Kind → List ℕ → Decoded (List Item)
unfolding decode_item
decode_items [] xs = got [] xs
decode_items (k ∷ ks) xs =
    and_then (decode_item k xs) λ x rest. mapped (◌∷◌ x) (decode_items ks rest)
