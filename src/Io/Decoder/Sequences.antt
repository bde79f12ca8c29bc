-- ===== src/Io/Decoder/Sequences.antt =====
-- Any sequence of reads on any bytes.
use lucanthrope.Base.{ℕ, refl, true, List, [], ◌∷◌}
use lucanthrope.Io.IndexInput.{InputImpl}
use lucanthrope.Io.IndexInput.Source.{IsSource}
use lucanthrope.Io.IndexInput.Reads.{read-Ahead}
use lucanthrope.Io.Items.{Item, Kind, read_item, read_items}
use lucanthrope.Io.Decoder.{got, mapped, decode_item, decode_items}
use lucanthrope.Io.Decoder.Varints.{
  Left, Decodes, Decodes-continue, read_varint32-Decodes, read_varint64-Decodes,
}
use lucanthrope.Io.Decoder.Reads.{
  All-drop, read_byte-Decodes, read_int32-Decodes, read_int64-Decodes, read_string-Decodes,
}

module _ {S : Type 0} {impl : InputImpl S} (src : IsSource impl) where
  open src use {Ahead}

  read_item-Decodes :
      (k : Kind) (s : S) (xs : List ℕ)
      → Left src s xs
      → Decodes src (read_item ⦃impl = impl⦄ k s) (decode_item k xs)
  unfolding read_item decode_item
  read_item-Decodes Kind.byte s xs left = read_byte-Decodes src s xs left
  read_item-Decodes Kind.int32 s xs left =
      Decodes-continue src _ _ _ (λ n rest. got (Item.int32 n) rest)
        (read_int32-Decodes src s xs left) λ n t rest l. (refl, l)
  read_item-Decodes Kind.int64 s xs left =
      Decodes-continue src _ _ _ (λ n rest. got (Item.int64 n) rest)
        (read_int64-Decodes src s xs left) λ n t rest l. (refl, l)
  read_item-Decodes Kind.varint32 s xs left =
      Decodes-continue src _ _ _ (λ n rest. got (Item.varint32 n) rest)
        (read_varint32-Decodes src s xs left) λ n t rest l. (refl, l)
  read_item-Decodes Kind.varint64 s xs left =
      Decodes-continue src _ _ _ (λ n rest. got (Item.varint64 n) rest)
        (read_varint64-Decodes src s xs left) λ n t rest l. (refl, l)
  read_item-Decodes (Kind.bytes size) s xs left =
      let (s1, e1, a1) = read-Ahead src size true s xs left.0 tt in
      rw e1 (refl, (a1, All-drop size xs left.1))
  read_item-Decodes Kind.string s xs left =
      Decodes-continue src _ _ _ (λ str rest. got (Item.string str) rest)
        (read_string-Decodes src s xs left) λ str t rest l. (refl, l)

  -- Over every source, for any sequence of calls of the reading functions and whatever bytes are
  -- left in it, the calls do what the decoder makes of these bytes: they return its values and
  -- leave the bytes behind them, or throw IndexCorruptionException where it finds them corrupt and
  -- leave what it leaves; they never fail an assertion and never go on for ever.
  pub reads_decode :
      (ks : List Kind) (s : S) (xs : List ℕ)
      → Left src s xs
      → Decodes src (read_items ⦃impl = impl⦄ ks s) (decode_items ks xs)
  unfolding read_items decode_items
  reads_decode [] s xs left = (refl, left)
  reads_decode (k ∷ ks) s xs left =
      Decodes-continue src _ _ _ (λ x rest. mapped (◌∷◌ x) (decode_items ks rest))
        (read_item-Decodes k s xs left)
        λ x t rest l.
          Decodes-continue src _ _ _ (λ ys rest. got (x ∷ ys) rest) (reads_decode ks t rest l)
            λ ys u r m. (refl, m)
