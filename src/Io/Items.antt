-- ===== src/Io/Items.antt =====
-- Clients of IndexOutput and IndexInput: one item after another through one stream.
pub mod Written
pub mod ReadBack
use lucanthrope.Base.{ℕ, ◌^◌, ◌≤◌, ◌<◌, ◌⊎◌, Bool, true, false, List, [], ◌∷◌, ◌++◌, length}
use lucanthrope.Exception.{Action, pure, ◌>>=◌, ◌>>◌}
use lucanthrope.Io.Encode.{int32_buf, int64_buf, varint32_buf, varint64_buf}
use lucanthrope.Io.RoundTrip.Strings.{string_bytes}
use lucanthrope.Io.IndexOutput.{
  OutputImpl, write_byte, write, write_int32, write_int64, write_varint32, write_varint64,
  write_string, flush,
}
use lucanthrope.Io.IndexInput.{
  InputImpl, read_byte, read, read_int32, read_int64, read_varint32, read_varint64, read_string,
}

-- What one call of a write function is given.
pub data Item : Type 0 where
  byte int32 int64 varint32 varint64 : ℕ → Item
  bytes string : List ℕ → Item

-- What a reader knows beforehand.
pub data Kind : Type 0 where
  byte int32 int64 varint32 varint64 string : Kind
  bytes : ℕ → Kind

abbrev pub kind_of : Item → Kind
kind_of (byte n) = Kind.byte
kind_of (int32 n) = Kind.int32
kind_of (int64 n) = Kind.int64
kind_of (varint32 n) = Kind.varint32
kind_of (varint64 n) = Kind.varint64
kind_of (bytes bs) = Kind.bytes (length bs)
kind_of (string str) = Kind.string

-- The values of the types; varint32 has a gap.
abbrev pub IsVarint32 : ℕ → Type 0
IsVarint32 n = (n < 2 ^ 32) × ((n < 2 ^ 21) ⊎ (2 ^ 28 ≤ n))

abbrev pub IsItem : Item → Type 0
IsItem (byte n) = Unit {0}
IsItem (int32 n) = n < 2 ^ 32
IsItem (int64 n) = n < 2 ^ 64
IsItem (varint32 n) = IsVarint32 n
IsItem (varint64 n) = n < 2 ^ 64
IsItem (bytes bs) = Unit {0}
IsItem (string str) = IsVarint32 (length str)

abbrev pub AreItems : List Item → Type 0
AreItems [] = Unit {0}
AreItems (x ∷ xs) = IsItem x × AreItems xs

abbrev pub kinds_of : List Item → List Kind
kinds_of [] = []
kinds_of (x ∷ xs) = kind_of x ∷ kinds_of xs

abbrev pub item_bytes : Item → List ℕ
item_bytes (byte n) = n ∷ []
item_bytes (int32 n) = int32_buf n
item_bytes (int64 n) = int64_buf n
item_bytes (varint32 n) = varint32_buf n
item_bytes (varint64 n) = varint64_buf n
item_bytes (bytes bs) = bs
item_bytes (string str) = string_bytes str

abbrev pub items_bytes : List Item → List ℕ
items_bytes [] = []
items_bytes (x ∷ xs) = item_bytes x ++ items_bytes xs

abbrev pub items_of : List (Item × Bool) → List Item
items_of [] = []
items_of ((x, flushed) ∷ xs) = x ∷ items_of xs

module _ {S : Type 0} ⦃impl : OutputImpl S⦄ where
  pub write_item : Item → Action S (Unit {0})
  write_item (byte n) = write_byte n
  write_item (int32 n) = write_int32 n
  write_item (int64 n) = write_int64 n
  write_item (varint32 n) = write_varint32 n
  write_item (varint64 n) = write_varint64 n
  write_item (bytes bs) = write bs
  write_item (string str) = write_string str

  pub flush_if : Bool → Action S (Unit {0})
  flush_if true = flush
  flush_if false = pure tt

  -- With each item, whether the stream is flushed after it.
  pub write_items : List (Item × Bool) → Action S (Unit {0})
  write_items [] = pure tt
  write_items ((x, flushed) ∷ xs) = do write_item x; flush_if flushed; write_items xs

module _ {S : Type 0} ⦃impl : InputImpl S⦄ where
  unfoldable pub read_item : Kind → Action S Item
  read_item Kind.byte = read_byte >>= λ n. pure (Item.byte n)
  read_item Kind.int32 = read_int32 >>= λ n. pure (Item.int32 n)
  read_item Kind.int64 = read_int64 >>= λ n. pure (Item.int64 n)
  read_item Kind.varint32 = read_varint32 >>= λ n. pure (Item.varint32 n)
  read_item Kind.varint64 = read_varint64 >>= λ n. pure (Item.varint64 n)
  read_item (Kind.bytes size) = read size >>= λ bs. pure (Item.bytes bs)
  read_item Kind.string = read_string >>= λ str. pure (Item.string str)

  unfoldable pub read_items : List Kind → Action S (List Item)
  read_items [] = pure []
  read_items (k ∷ ks) = do x ← read_item k; xs ← read_items ks; pure (x ∷ xs)
