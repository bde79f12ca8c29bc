-- ===== src/Io/Items/ReadBack.antt =====
-- A sequence of items is read back from its bytes.
use lucanthrope.Base.{ℕ, ◌≡◌, refl, Bool, List, [], ◌∷◌, ◌++◌, append_assoc}
use lucanthrope.Exception.{ok}
use lucanthrope.Io.IndexInput.{InputImpl}
use lucanthrope.Io.IndexInput.Source.{IsSource, read_byte-Ahead}
use lucanthrope.Io.IndexInput.Reads.{read_prefix}
use lucanthrope.Io.RoundTrip.Fixed.{read_int32-int32_buf, read_int64-int64_buf}
use lucanthrope.Io.RoundTrip.Varint.{read_varint32-varint32_buf, read_varint64-varint64_buf}
use lucanthrope.Io.RoundTrip.Strings.{read_string-string_bytes}
use lucanthrope.Io.Items.{
  Item, byte, int32, int64, varint32, varint64, bytes, string, IsItem, AreItems, kind_of, kinds_of,
  item_bytes, items_bytes, read_item, read_items,
}

module _ {S : Type 0} {impl : InputImpl S} (src : IsSource impl) where
  open src use {Ahead}

  pub read_item_lem :
      (x : Item) (ends : Bool) (s : S) (rest : List ℕ)
      → IsItem x
      → Ahead ends s (item_bytes x ++ rest)
      → (s' : S) × (read_item ⦃impl = impl⦄ (kind_of x) s ≡ ok x s') × Ahead ends s' rest
  unfolding read_item
  read_item_lem (byte n) ends s rest h a =
      let (s', e, a') = read_byte-Ahead src ends s n rest a in (s', rw e, a')
  read_item_lem (int32 n) ends s rest h a =
      let (s', e, a') = read_int32-int32_buf src n ends s rest h a in (s', rw e, a')
  read_item_lem (int64 n) ends s rest h a =
      let (s', e, a') = read_int64-int64_buf src n ends s rest h a in (s', rw e, a')
  read_item_lem (varint32 n) ends s rest h a =
      let (s', e, a') = read_varint32-varint32_buf src n ends s rest h.0 h.1 a in (s', rw e, a')
  read_item_lem (varint64 n) ends s rest h a =
      let (s', e, a') = read_varint64-varint64_buf src n ends s rest h a in (s', rw e, a')
  read_item_lem (bytes bs) ends s rest h a =
      let (s', e, a') = read_prefix src bs ends s rest a in (s', rw e, a')
  read_item_lem (string str) ends s rest h a =
      let (s', e, a') = read_string-string_bytes src str ends s rest h.0 h.1 a in (s', rw e, a')

  pub read_items_lem :
      (xs : List Item) (ends : Bool) (s : S) (rest : List ℕ)
      → AreItems xs
      → Ahead ends s (items_bytes xs ++ rest)
      → (s' : S) × (read_items ⦃impl = impl⦄ (kinds_of xs) s ≡ ok xs s') × Ahead ends s' rest
  unfolding read_items
  read_items_lem [] ends s rest h a = (s, refl, a)
  read_items_lem (x ∷ xs) ends s rest h a =
      let (s1, e1, a1) =
        read_item_lem x ends s (items_bytes xs ++ rest) h.0 (rw append_assoc at a) in
      let (s2, e2, a2) = read_items_lem xs ends s1 rest h.1 a1 in (s2, rw (e1, e2), a2)
