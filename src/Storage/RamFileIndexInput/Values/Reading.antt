-- ===== src/Storage/RamFileIndexInput/Values/Reading.antt =====
-- Whatever the bytes of a file are, the reading functions return values of their types.
use lucanthrope.Base.{
  ℕ, zero, suc, ◌+◌, ◌-◌, ◌^◌, ◌≤◌, ◌<◌, ◌≡◌, refl, min, bit_and, List, [], ◌∷◌, ◌++◌, length,
  get_elem?, ltb, ◌==◌, All-append, length-append, Option-cases, inl, inr, arith,
}
use lucanthrope.Base.Bits.{bit_or_lt}
use lucanthrope.Exception.{Outcome, Action, Gives, Gives-continue, Gives-if}
use lucanthrope.Io.IndexInput.{
  eof, read_byte, copy_bytes, read_loop, read, read_int32, read_int64, add_group, varint_loop,
  read_varint32, read_varint64, push_bytes, read_string,
}
use lucanthrope.Io.Items.{Item, Kind, read_item, read_items}
use lucanthrope.Storage.RamFile.{RamFile}
use lucanthrope.Storage.RamFileIndexInput.{
  RamInput, new_input, set_buffer, next_byte, init_internal_buffer, fill_impl, ram_input,
}
use lucanthrope.Storage.RamFileIndexInput.Values.{
  HasBytes, AreBytes, Fits, AllFit, int32_value_lem, int64_value_lem,
}

module _ (f : RamFile) (bytes : HasBytes f) where
  abbrev Same : {A : Type 0} → A → RamInput → Type 0
  Same a s = s.file ≡ f

  eof-Gives : (s : RamInput) → s.file ≡ f → Gives (eof ⦃impl = ram_input⦄ s) Same
  unfolding eof ram_input fill_impl init_internal_buffer set_buffer
  eof-Gives s h = ground (arith, h)

  abbrev IsByte : ℕ → RamInput → Type 0
  IsByte b s = (s.file ≡ f) × (b < 2 ^ 8)

  next_byte-Gives : (s : RamInput) → s.file ≡ f → Gives (next_byte s) IsByte
  unfolding next_byte
  next_byte-Gives s h = elim (Option-cases (get_elem? s.file.blocks s.buf_block)) [
    | inl none_ ↦ ground (arith, none_)
    | inr (blk, found) ↦
        let small : blk s.buf_cur < 2 ^ 8 = bytes s.buf_block s.buf_cur blk (rw h at found) in
        ground (arith, found, small, h)
  ]

  read_byte-Gives : (s : RamInput) → s.file ≡ f → Gives (read_byte ⦃impl = ram_input⦄ s) IsByte
  unfolding read_byte ram_input
  read_byte-Gives s h = Gives-continue Same IsByte _ _ (eof-Gives s h) λ at_end t same.
      Gives-if IsByte at_end _ _ t (λ _. tt)
        (λ _. next_byte-Gives (record t { pos = t.pos + 1 }) same)

  abbrev HasBytesUpTo : ℕ → List ℕ → RamInput → Type 0
  HasBytesUpTo n bs s = (s.file ≡ f) × AreBytes bs × (length bs ≤ n)

  copy_bytes-Gives :
      (n : ℕ) (s : RamInput)
      → s.file ≡ f
      → Gives (copy_bytes ⦃impl = ram_input⦄ n s) (HasBytesUpTo n)
  unfolding copy_bytes ram_input
  copy_bytes-Gives zero s h = (h, tt, omega arith)
  copy_bytes-Gives (suc n) s h =
      Gives-continue IsByte (HasBytesUpTo (suc n)) _ _ (next_byte-Gives s h) λ b t byte.
        Gives-continue (HasBytesUpTo n) (HasBytesUpTo (suc n)) _ _ (copy_bytes-Gives n t byte.0)
          λ bs u more. (more.0, (byte.1, more.1), omega (arith, more.2))

  read_loop-Gives :
      (fuel size total : ℕ) (copied : List ℕ) (s : RamInput)
      → s.file ≡ f
      → AreBytes copied
      → length copied + size ≤ total
      → Gives (read_loop ⦃impl = ram_input⦄ fuel size copied s) (HasBytesUpTo total)
  unfolding read_loop ram_input
  read_loop-Gives fuel zero total copied s h c l = (h, c, omega arith)
  read_loop-Gives zero (suc size) total copied s h c l = tt
  read_loop-Gives (suc fuel) (suc size) total copied s h c l =
      Gives-continue Same (HasBytesUpTo total) _ _ (eof-Gives s h) λ at_end t same.
        Gives-if (HasBytesUpTo total) at_end _ _ t (λ _. (same, c, omega arith))
          λ not_end.
            let n : ℕ = min (t.sentinel - t.buf_cur) (suc size) in
            Gives-continue (HasBytesUpTo n) (HasBytesUpTo total) _ _ (copy_bytes-Gives n t same)
              λ bs u more.
                read_loop-Gives fuel (suc size - n) total (copied ++ bs) u more.0
                  (All-append _ copied bs c more.1) (omega (arith, length-append copied bs, more.2))

  read-Gives :
      (size : ℕ) (s : RamInput)
      → s.file ≡ f
      → Gives (read ⦃impl = ram_input⦄ size s) (HasBytesUpTo size)
  unfolding read ram_input
  read-Gives size s h =
      Gives-continue (HasBytesUpTo size) (HasBytesUpTo size) _ _
        (read_loop-Gives size size size [] s h tt (omega arith)) λ bs t got. got

  abbrev InWord : ℕ → ℕ → RamInput → Type 0
  InWord width n s = (s.file ≡ f) × (n < 2 ^ width)

  varint_loop-Gives :
      (width rounds decoded ret : ℕ) (fail : Action RamInput ℕ) (s : RamInput)
      → 0 < 2 ^ width
      → s.file ≡ f
      → ret < 2 ^ width
      → ((t : RamInput) → t.file ≡ f → Gives (fail t) (InWord width))
      → Gives (varint_loop ⦃impl = ram_input⦄ width rounds decoded ret fail s) (InWord width)
  unfolding varint_loop
  varint_loop-Gives width zero decoded ret fail s w h r k = k s h
  varint_loop-Gives width (suc rounds) decoded ret fail s w h r k =
      Gives-continue Same (InWord width) _ _ (eof-Gives s h) λ at_end t same.
        Gives-if (InWord width) at_end _ _ t (λ _. k t same)
          λ _. Gives-continue IsByte (InWord width) _ _ (read_byte-Gives t same) λ b u byte.
            let next : add_group width ret b decoded < 2 ^ width =
              bit_or_lt width ret _ r (omega arith) in
            Gives-if (InWord width) (bit_and b 128 == 0) _ _ u (λ _. (byte.0, next))
              λ _. varint_loop-Gives width rounds (decoded + 1) _ fail u w byte.0 next k

  abbrev HasBytesOf : ℕ → List ℕ → RamInput → Type 0
  HasBytesOf n bs s = (s.file ≡ f) × AreBytes bs × (length bs ≡ n)

  push_bytes-Gives :
      (size total : ℕ) (buff : List ℕ) (s : RamInput)
      → s.file ≡ f
      → AreBytes buff
      → length buff + size ≡ total
      → Gives (push_bytes ⦃impl = ram_input⦄ size buff s) (HasBytesOf total)
  unfolding push_bytes
  push_bytes-Gives zero total buff s h c l = (h, c, omega arith)
  push_bytes-Gives (suc size) total buff s h c l =
      Gives-continue IsByte (HasBytesOf total) _ _ (read_byte-Gives s h) λ b t byte.
        push_bytes-Gives size total (buff ++ (b ∷ [])) t byte.0
          (All-append _ buff (b ∷ []) c (byte.1, tt)) (omega (arith, length-append buff (b ∷ [])))

  abbrev HasItem : Kind → Item → RamInput → Type 0
  HasItem k x s = (s.file ≡ f) × Fits k x

  abbrev HasItems : List Kind → List Item → RamInput → Type 0
  HasItems ks xs s = (s.file ≡ f) × AllFit ks xs

  abbrev IsText : List ℕ → RamInput → Type 0
  IsText str s = (s.file ≡ f) × AreBytes str × (length str < 2 ^ 32)

  short_string :
      (n : ℕ)
      → n < 2 ^ 32
      → (o : Outcome RamInput (List ℕ)) → Gives o (HasBytesOf n)
      → Gives o IsText
  short_string n h (Outcome.ok str s) got = (got.0, got.1, omega (arith, got.2))
  short_string n h (Outcome.throws e s) got = tt
  short_string n h Outcome.aborts got = tt
  short_string n h Outcome.undefined got = tt
  short_string n h Outcome.diverges got = tt

  read_item-Gives :
      (k : Kind) (s : RamInput) → s.file ≡ f → Gives (read_item ⦃impl = ram_input⦄ k s) (HasItem k)
  unfolding read_item read_int32 read_int64 read_varint32 read_varint64 read_string
  read_item-Gives Kind.byte s h =
      Gives-continue IsByte (HasItem Kind.byte) _ _ (read_byte-Gives s h) λ b t byte. byte
  read_item-Gives Kind.int32 s h =
      Gives-continue (InWord 32) (HasItem Kind.int32) _ _
        (Gives-continue (HasBytesUpTo 4) (InWord 32) _ _ (read-Gives 4 s h) λ bs t got.
          Gives-if (InWord 32) (ltb (length bs) 4) _ _ t (λ _. tt)
            (λ _. (got.0, int32_value_lem bs)))
        λ n t got. got
  read_item-Gives Kind.int64 s h =
      Gives-continue (InWord 64) (HasItem Kind.int64) _ _
        (Gives-continue (HasBytesUpTo 8) (InWord 64) _ _ (read-Gives 8 s h) λ bs t got.
          Gives-if (InWord 64) (ltb (length bs) 8) _ _ t (λ _. tt)
            (λ _. (got.0, int64_value_lem bs)))
        λ n t got. got
  read_item-Gives Kind.varint32 s h =
      Gives-continue (InWord 32) (HasItem Kind.varint32) _ _
        (varint_loop-Gives 32 5 0 0 _ s (omega arith) h (omega arith) (λ t same. tt)) λ n t got. got
  read_item-Gives Kind.varint64 s h =
      Gives-continue (InWord 64) (HasItem Kind.varint64) _ _
        (varint_loop-Gives 64 10 0 0 _ s (omega arith) h (omega arith) (λ t same. tt))
        λ n t got. got
  read_item-Gives (Kind.bytes size) s h =
      Gives-continue (HasBytesUpTo size) (HasItem (Kind.bytes size)) _ _ (read-Gives size s h)
        λ bs t got. (got.0, (got.1, got.2))
  read_item-Gives Kind.string s h =
      Gives-continue IsText (HasItem Kind.string) _ _
        (Gives-continue (InWord 32) IsText _ _
          (varint_loop-Gives 32 5 0 0 _ s (omega arith) h (omega arith) (λ t same. tt))
          λ n t got.
            short_string n got.1 (push_bytes ⦃impl = ram_input⦄ n [] t)
              (push_bytes-Gives n n [] t got.0 tt (omega arith)))
        λ str t got. (got.0, (got.1, got.2))

  read_items-Gives :
      (ks : List Kind) (s : RamInput)
      → s.file ≡ f
      → Gives (read_items ⦃impl = ram_input⦄ ks s) (HasItems ks)
  unfolding read_items
  read_items-Gives [] s h = (h, tt)
  read_items-Gives (k ∷ ks) s h =
      Gives-continue (HasItem k) (HasItems (k ∷ ks)) _ _ (read_item-Gives k s h) λ x t got.
        Gives-continue (HasItems ks) (HasItems (k ∷ ks)) _ _ (read_items-Gives ks t got.0)
          λ xs u more. (more.0, (got.1, more.1))

-- Whatever the bytes of a file are, well formed or not, when a sequence of calls of the reading
-- functions on a new stream over it returns, each result fits its type: a byte is below 2 ^ 8, a
-- 32-bit number or varint below 2 ^ 32, a 64-bit one below 2 ^ 64, a block consists of bytes and is
-- not longer than was asked for, a string of bytes, fewer than 2 ^ 32; and the file is as it was.
pub values_fit :
    (f : RamFile) (ks : List Kind)
    → HasBytes f
    → Gives (read_items ⦃impl = ram_input⦄ ks (new_input f)) (λ xs t. (t.file ≡ f) × AllFit ks xs)
unfolding new_input
values_fit f ks bytes = read_items-Gives f bytes ks (new_input f) refl
