-- ===== src/Io/Decoder/Reads.antt =====
-- The functions of IndexInput on any bytes.
use lucanthrope.Base.{
  ℕ, zero, suc, ◌+◌, ◌*◌, ◌^◌, ◌≡◌, ◌∙◌, refl, sym, Bool-cases, inl, inr, true, false, ltb, leb,
  List, [], ◌∷◌, ◌++◌, append_assoc, append-nil, length, length-take-le, take, drop, take-all,
  drop-all, arith,
}
use lucanthrope.Exception.{Outcome, ok, throws, aborts, undefined, diverges, pure, ◌>>=◌}
use lucanthrope.Io.IndexInput.{
  InputImpl, int32_value, int64_value, read_byte, read_int32, read_int64, push_bytes, read_string,
}
use lucanthrope.Io.IndexInput.Source.{IsSource, eof-exhausted, read_byte-Ahead}
use lucanthrope.Io.IndexInput.Reads.{read-Ahead}
use lucanthrope.Io.RoundTrip.Fixed.{or_four, or_high}
use lucanthrope.Io.Items.{Item, Kind}
use lucanthrope.Io.Decoder.{
  Decoded, got, corrupt, and_then, mapped, number_of, decode_bytes, decode_varint, decode_item,
}
use lucanthrope.Io.Decoder.Varints.{
  AreBytes, Left, Decodes, Decodes-continue, read_varint32-Decodes,
}

int32_value-bytes :
    (a b c d : ℕ)
    → AreBytes (a ∷ b ∷ c ∷ d ∷ [])
    → int32_value (a ∷ b ∷ c ∷ d ∷ []) ≡ number_of (a ∷ b ∷ c ∷ d ∷ [])
unfolding int32_value number_of
int32_value-bytes a b c d (ha, (hb, (hc, (hd, _)))) =
    or_four (2 ^ 32) a b c d ha hb hc hd (omega arith) ∙ omega arith

int64_value-bytes :
    (a b c d e f g h : ℕ)
    → AreBytes (a ∷ b ∷ c ∷ d ∷ e ∷ f ∷ g ∷ h ∷ [])
    → int64_value (a ∷ b ∷ c ∷ d ∷ e ∷ f ∷ g ∷ h ∷ [])
      ≡ number_of (a ∷ b ∷ c ∷ d ∷ e ∷ f ∷ g ∷ h ∷ [])
unfolding int64_value number_of
int64_value-bytes a b c d e f g h (ha, (hb, (hc, (hd, (he, (hf, (hg, (hh, _)))))))) =
    rw (or_four (2 ^ 64) a b c d ha hb hc hd (omega arith)) (
      or_high (a + b * 2 ^ 8 + c * 2 ^ 16 + d * 2 ^ 24) e f g h (omega arith) he hf hg hh
      ∙ omega arith)

int32_value-number_of : (bs : List ℕ) → length bs ≡ 4 → AreBytes bs → int32_value bs ≡ number_of bs
int32_value-number_of [] e h = absurd (omega arith)
int32_value-number_of (a ∷ []) e h = absurd (omega arith)
int32_value-number_of (a ∷ b ∷ []) e h = absurd (omega arith)
int32_value-number_of (a ∷ b ∷ c ∷ []) e h = absurd (omega arith)
int32_value-number_of (a ∷ b ∷ c ∷ d ∷ []) e h = int32_value-bytes a b c d h
int32_value-number_of (a ∷ b ∷ c ∷ d ∷ x ∷ xs) e h = absurd (omega arith)

int64_value-number_of : (bs : List ℕ) → length bs ≡ 8 → AreBytes bs → int64_value bs ≡ number_of bs
int64_value-number_of [] len small = absurd (omega arith)
int64_value-number_of (a ∷ []) len small = absurd (omega arith)
int64_value-number_of (a ∷ b ∷ []) len small = absurd (omega arith)
int64_value-number_of (a ∷ b ∷ c ∷ []) len small = absurd (omega arith)
int64_value-number_of (a ∷ b ∷ c ∷ d ∷ []) len small = absurd (omega arith)
int64_value-number_of (a ∷ b ∷ c ∷ d ∷ e ∷ []) len small = absurd (omega arith)
int64_value-number_of (a ∷ b ∷ c ∷ d ∷ e ∷ f ∷ []) len small = absurd (omega arith)
int64_value-number_of (a ∷ b ∷ c ∷ d ∷ e ∷ f ∷ g ∷ []) len small = absurd (omega arith)
int64_value-number_of (a ∷ b ∷ c ∷ d ∷ e ∷ f ∷ g ∷ h ∷ []) len small =
    int64_value-bytes a b c d e f g h small
int64_value-number_of (a ∷ b ∷ c ∷ d ∷ e ∷ f ∷ g ∷ h ∷ x ∷ xs) len small = absurd (omega arith)

All-take : (n : ℕ) (xs : List ℕ) → AreBytes xs → AreBytes (take n xs)
All-take zero xs h = tt
All-take (suc n) [] h = tt
All-take (suc n) (x ∷ xs) h = (h.0, All-take n xs h.1)

pub All-drop : (n : ℕ) (xs : List ℕ) → AreBytes xs → AreBytes (drop n xs)
All-drop zero xs h = h
All-drop (suc n) [] h = tt
All-drop (suc n) (x ∷ xs) h = All-drop n xs h.1

module _ {S : Type 0} {impl : InputImpl S} (src : IsSource impl) where
  open src use {Ahead}

  pub read_byte-Decodes :
      (s : S) (xs : List ℕ)
      → Left src s xs
      → Decodes src
          ((read_byte ⦃impl = impl⦄ >>= λ n. pure (Item.byte n)) s)
          (decode_item Kind.byte xs)
  unfolding read_byte decode_item
  read_byte-Decodes s [] left = rw (eof-exhausted src s left.0) (refl, left)
  read_byte-Decodes s (x ∷ xs) left =
      let (s1, e1, a1) = read_byte-Ahead src true s x xs left.0 in rw e1 (refl, (a1, left.1.1))

  pub read_int32-Decodes :
      (s : S) (xs : List ℕ)
      → Left src s xs
      → Decodes src (read_int32 ⦃impl = impl⦄ s) (mapped number_of (decode_bytes 4 xs))
  unfolding read_int32 decode_bytes
  read_int32-Decodes s xs (a, bytes) =
      let (s1, e1, a1) = read-Ahead src 4 true s xs a tt in
      elim (Bool-cases (leb 4 (length xs))) [
        | inl enough ↦
            let size = length-take-le 4 xs (ground (arith, enough)) in
            let test : ltb (length (take 4 xs)) 4 ≡ false = ground (arith, size) in
            rw (e1, enough, test)
              (
                int32_value-number_of (take 4 xs) size (All-take 4 xs bytes),
                (a1, All-drop 4 xs bytes),
              )
        | inr short ↦
            let all = take-all 4 xs (ground (arith, short)) in
            let none_left = drop-all 4 xs (ground (arith, short)) in
            let test : ltb (length (take 4 xs)) 4 ≡ true = ground (arith, all, short) in
            rw (e1, short, test) (refl, (rw none_left at a1, tt))
      ]

  pub read_int64-Decodes :
      (s : S) (xs : List ℕ)
      → Left src s xs
      → Decodes src (read_int64 ⦃impl = impl⦄ s) (mapped number_of (decode_bytes 8 xs))
  unfolding read_int64 decode_bytes
  read_int64-Decodes s xs (a, bytes) =
      let (s1, e1, a1) = read-Ahead src 8 true s xs a tt in
      elim (Bool-cases (leb 8 (length xs))) [
        | inl enough ↦
            let size = length-take-le 8 xs (ground (arith, enough)) in
            let test : ltb (length (take 8 xs)) 8 ≡ false = ground (arith, size) in
            rw (e1, enough, test)
              (
                int64_value-number_of (take 8 xs) size (All-take 8 xs bytes),
                (a1, All-drop 8 xs bytes),
              )
        | inr short ↦
            let all = take-all 8 xs (ground (arith, short)) in
            let none_left = drop-all 8 xs (ground (arith, short)) in
            let test : ltb (length (take 8 xs)) 8 ≡ true = ground (arith, all, short) in
            rw (e1, short, test) (refl, (rw none_left at a1, tt))
      ]

  push_bytes-Decodes :
      (n : ℕ) (buff : List ℕ) (s : S) (xs : List ℕ)
      → Left src s xs
      → Decodes src (push_bytes ⦃impl = impl⦄ n buff s) (mapped (◌++◌ buff) (decode_bytes n xs))
  unfolding push_bytes decode_bytes read_byte
  push_bytes-Decodes zero buff s xs left =
      let test : leb 0 (length xs) ≡ true = ground arith in rw test (sym (append-nil buff), left)
  push_bytes-Decodes (suc n) buff s [] left =
      let test : leb (suc n) 0 ≡ false = ground arith in
      rw (eof-exhausted src s left.0, test) (refl, left)
  push_bytes-Decodes (suc n) buff s (x ∷ xs) left =
      let (s1, e1, a1) = read_byte-Ahead src true s x xs left.0 in
      let rest = push_bytes-Decodes n (buff ++ (x ∷ [])) s1 xs (a1, left.1.1) in
      elim (Bool-cases (leb n (length xs))) [
        | inl enough ↦
            let test : leb (suc n) (suc (length xs)) ≡ true = ground (arith, enough) in
            rw (e1, test) (rw append_assoc at (rw enough at rest))
        | inr short ↦
            let test : leb (suc n) (suc (length xs)) ≡ false = ground (arith, short) in
            rw (e1, test) (rw short at rest)
      ]

  from_empty :
      (o : Outcome S (List ℕ)) (v : Decoded (List ℕ))
      → Decodes src o (mapped (◌++◌ []) v)
      → Decodes src o v
  from_empty (ok x s) (got y rest) d = d
  from_empty (throws e s) (corrupt rest) d = d
  from_empty (ok x s) (corrupt rest) d = elim d [ ]
  from_empty (throws e s) (got y rest) d = elim d [ ]
  from_empty aborts v d = elim d [ ]
  from_empty undefined v d = elim d [ ]
  from_empty diverges v d = elim d [ ]

  pub read_string-Decodes :
      (s : S) (xs : List ℕ)
      → Left src s xs
      → Decodes src
          (read_string ⦃impl = impl⦄ s)
          (and_then (decode_varint 32 5 xs) λ n rest. decode_bytes n rest)
  unfolding read_string
  read_string-Decodes s xs left =
      Decodes-continue src _ (decode_varint 32 5 xs) _ decode_bytes
        (read_varint32-Decodes src s xs left)
        λ n t rest l. from_empty _ _ (push_bytes-Decodes n [] t rest l)
