-- ===== src/Io/Items/Written.antt =====
-- A sequence of items is written as the bytes of the items, one after another.
use mathlib.Core.Path.{subst}
use lucanthrope.Base.{
  ℕ, ◌+◌, ◌≡◌, refl, List, Bool, true, false, Bool-cases, inl, inr, ltb, ◌==◌, [], ◌∷◌, length,
  length-append, arith,
}
use lucanthrope.Exception.{ok}
use lucanthrope.Io.Encode.{int32_buf, int64_buf, varint32_buf, varint64_buf}
use lucanthrope.Io.IndexOutput.{
  OutputImpl, flush, flush_non_empty, write_int32, write_int64, write_varint32, write_varint64,
}
use lucanthrope.Io.IndexOutput.Sink.{IsSink, Wrote, Wrote-append}
use lucanthrope.Io.IndexOutput.Writes.{write_lem, Same, Same-Wrote}
use lucanthrope.Io.IndexOutput.Bytes.{write_byte_lem}
use lucanthrope.Io.IndexOutput.Strings.{write_string_lem}
use lucanthrope.Io.Items.{
  Item, byte, int32, int64, varint32, varint64, bytes, string, item_bytes, items_bytes, write_item,
  write_items, items_of, flush_if,
}

module _ {S : Type 0} {impl : OutputImpl S} (sink : IsSink impl) where
  open sink use {Ready}

  pub write_item_lem :
      (x : Item) (s : S) (p : ℕ)
      → Ready s p p
      → (s' : S) × (write_item ⦃impl = impl⦄ x s ≡ ok tt s')
        × Ready s' (p + length (item_bytes x)) (p + length (item_bytes x))
        × Wrote sink s p (item_bytes x) s'
  unfolding write_item write_int32 write_int64 write_varint32 write_varint64
  write_item_lem (byte n) s p r = write_byte_lem sink n s p r
  write_item_lem (int32 n) s p r = write_lem sink (int32_buf n) s p r
  write_item_lem (int64 n) s p r = write_lem sink (int64_buf n) s p r
  write_item_lem (varint32 n) s p r = write_lem sink (varint32_buf n) s p r
  write_item_lem (varint64 n) s p r = write_lem sink (varint64_buf n) s p r
  write_item_lem (bytes bs) s p r = write_lem sink bs s p r
  write_item_lem (string str) s p r = write_string_lem sink str s p r

  -- A flush leaves the bytes as they are.
  flush_if_lem :
      (flushed : Bool) (s : S) (p : ℕ)
      → Ready s p p
      → (s' : S) × (flush_if ⦃impl = impl⦄ flushed s ≡ ok tt s') × Ready s' p p × Same sink s s'
  unfolding flush_if flush flush_non_empty
  flush_if_lem false s p r = (s, refl, r, λ i x b. b)
  flush_if_lem true s p r = elim (Bool-cases (impl.get_num_writable_bytes s == 0)) [
    | inl empty ↦ (s, ground (arith, empty), r, λ i x b. b)
    | inr some ↦
        let (s', e, r', same) = sink.flush_lem s p r (ground (arith, some)) in
        let more : ltb 0 (impl.get_num_writable_bytes s) ≡ true = ground (arith, some) in
        (impl.reset_cursor s', rw (some, more, e) refl, r', same)
  ]

  pub write_items_lem :
      (xs : List (Item × Bool)) (s : S) (p : ℕ)
      → Ready s p p
      → (s' : S) × (write_items ⦃impl = impl⦄ xs s ≡ ok tt s')
        × Ready s' (p + length (items_bytes (items_of xs))) (p + length (items_bytes (items_of xs)))
        × Wrote sink s p (items_bytes (items_of xs)) s'
  unfolding write_items
  write_items_lem [] s p r =
      let e : p + 0 ≡ p = omega arith in
      (s, refl, rw e r, record { holds = tt; kept = λ i x out b. b })
  write_items_lem ((x, flushed) ∷ xs) s p r =
      let (s1, e1, r1, w1) = write_item_lem x s p r in
      let (s3, e3, r3, same) = flush_if_lem flushed s1 (p + length (item_bytes x)) r1 in
      let (s2, e2, r2, w2) = write_items_lem xs s3 (p + length (item_bytes x)) r3 in
      let end_ : p + length (item_bytes x) + length (items_bytes (items_of xs))
          ≡ p + length (items_bytes (items_of ((x, flushed) ∷ xs))) =
        omega (arith, length-append (item_bytes x) (items_bytes (items_of xs))) in
      (
        s2,
        rw (e1, e3) e2,
        subst (λ n. Ready s2 n n) end_ r2,
        Wrote-append sink s s1 s2 p (p + length (item_bytes x)) (item_bytes x)
            (items_bytes (items_of xs)) refl w1
            (Same-Wrote sink s1 s3 s2 _ (items_bytes (items_of xs)) same w2),
      )
