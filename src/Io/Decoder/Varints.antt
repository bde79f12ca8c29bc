-- ===== src/Io/Decoder/Varints.antt =====
-- `readVarint32` and `readVarint64` on any bytes.
use lucanthrope.Base.{
  ℕ, zero, suc, ◌+◌, ◌*◌, ◌%◌, ◌^◌, ◌<◌, ◌≤◌, ◌≡◌, ◌∙◌, refl, ap, Bool-cases, inl, inr, true, false,
  bit_and, ◌==◌, ltb, List, [], ◌∷◌, All, arith,
}
use lucanthrope.Base.Bits.{bit_and-top_bit}
use lucanthrope.Exception.{
  Outcome, ok, throws, aborts, undefined, diverges, Action, continue, index_corruption_exception,
}
use lucanthrope.Io.IndexInput.{InputImpl, add_group, varint_loop, read_varint32, read_varint64}
use lucanthrope.Io.IndexInput.Source.{IsSource, eof-Ahead, eof-exhausted, read_byte-Ahead}
use lucanthrope.Io.Decoder.{Decoded, got, corrupt, and_then, mapped, decode_groups, decode_varint}
use lucanthrope.Io.Decoder.Groups.{add_group-wrapped, add_group-below, next_group}

abbrev pub AreBytes : List ℕ → Type 0
AreBytes = All (λ b. b < 2 ^ 8)

module _ {S : Type 0} {impl : InputImpl S} (src : IsSource impl) where
  open src use {Ahead}

  -- Just these bytes are left.
  abbrev pub Left : S → List ℕ → Type 0
  Left s xs = Ahead true s xs × AreBytes xs

  -- The call returns the value, or throws IndexCorruptionException, and leaves the bytes behind it.
  abbrev pub Decodes : {A : Type 0} → Outcome S A → Decoded A → Type 0
  Decodes (ok x s) (got y rest) = (x ≡ y) × Left s rest
  Decodes (throws e s) (corrupt rest) = (e.code ≡ index_corruption_exception) × Left s rest
  Decodes o v = ⊥

  pub Decodes-continue :
      {A B : Type 0} (o : Outcome S A) (v : Decoded A) (f : A → Action S B)
      (g : A → List ℕ → Decoded B)
      → Decodes o v
      → ((x : A) (s : S) (rest : List ℕ) → Left s rest → Decodes (f x s) (g x rest))
      → Decodes (continue o f) (and_then v g)
  Decodes-continue (ok x s) (got y rest) f g (same, left) k = rw (← same) (k x s rest left)
  Decodes-continue (throws e s) (corrupt rest) f g d k = d
  Decodes-continue (ok x s) (corrupt rest) f g d k = elim d [ ]
  Decodes-continue (throws e s) (got y rest) f g d k = elim d [ ]
  Decodes-continue aborts v f g d k = elim d [ ]
  Decodes-continue undefined v f g d k = elim d [ ]
  Decodes-continue diverges v f g d k = elim d [ ]

  -- The value of a number that is decoded in two steps.
  Decodes-mapped :
      (o : Outcome S ℕ) (v : Decoded ℕ) (f g h : ℕ → ℕ)
      → ((n : ℕ) → h n ≡ f (g n))
      → Decodes o (mapped h v)
      → Decodes o (mapped f (mapped g v))
  Decodes-mapped (ok x s) (got n rest) f g h k (same, left) = (same ∙ k n, left)
  Decodes-mapped (throws e s) (corrupt rest) f g h k d = d
  Decodes-mapped (ok x s) (corrupt rest) f g h k d = elim d [ ]
  Decodes-mapped (throws e s) (got n rest) f g h k d = elim d [ ]
  Decodes-mapped aborts v f g h k d = elim d [ ]
  Decodes-mapped undefined v f g h k d = elim d [ ]
  Decodes-mapped diverges v f g h k d = elim d [ ]

  -- The word after the loop, which has `ret` in its lowest `7 * d` bits before.
  abbrev word : ℕ → ℕ → ℕ → ℕ → ℕ
  word width d ret n = (ret + n * 2 ^ (7 * d)) % 2 ^ width

  varint_loop-Decodes :
      (width rounds d ret : ℕ) (fail : Action S ℕ) (s : S) (xs : List ℕ)
      → ((t : S) (rest : List ℕ) → Left t rest → Decodes (fail t) (corrupt rest))
      → 7 * (d + rounds) < width + 7
      → ret < 2 ^ (7 * d)
      → Left s xs
      → Decodes
          (varint_loop ⦃impl = impl⦄ width rounds d ret fail s)
          (mapped (word width d ret) (decode_groups rounds xs))
  unfolding varint_loop decode_groups
  varint_loop-Decodes width zero d ret fail s xs failing fits hr left = failing s xs left
  varint_loop-Decodes width (suc rounds) d ret fail s [] failing fits hr left =
      rw (eof-exhausted src s left.0) (failing s [] left)
  varint_loop-Decodes width (suc rounds) d ret fail s (x ∷ xs) failing fits hr (a, (byte, bytes)) =
      let (s1, e1, a1, _) = eof-Ahead src true s x xs a in
      let (s2, e2, a2) = read_byte-Ahead src true s1 x xs a1 in
      let inside : 7 * d ≤ width = omega arith in
      elim (Bool-cases (ltb x 128)) [
        | inl last ↦
            let end_ : (bit_and x 128 == 0) ≡ true = ground (arith, last, bit_and-top_bit x byte) in
            let group : x % 128 ≡ x = ground (arith, last) in
            rw (e1, e2, end_, last)
              (rw group at (add_group-wrapped width ret x d byte hr inside), (a2, bytes))
        | inr more ↦
            let on : (bit_and x 128 == 0) ≡ false = ground (arith, more, bit_and-top_bit x byte) in
            let rest =
              varint_loop-Decodes width rounds (d + 1) (add_group width ret x d) fail s2 xs failing
                (omega arith) (add_group-below width ret x d byte hr inside) (a2, bytes) in
            rw (e1, e2, on, more)
              (Decodes-mapped _ (decode_groups rounds xs) (word width d ret)
                (λ n. x % 128 + 128 * n) (word width (d + 1) (add_group width ret x d))
                (λ n. next_group width ret x n d byte hr inside) rest)
      ]

  Decodes-same :
      (o : Outcome S ℕ) (v : Decoded ℕ) (f h : ℕ → ℕ)
      → ((n : ℕ) → h n ≡ f n)
      → Decodes o (mapped h v)
      → Decodes o (mapped f v)
  Decodes-same (ok x s) (got n rest) f h k (same, left) = (same ∙ k n, left)
  Decodes-same (throws e s) (corrupt rest) f h k d = d
  Decodes-same (ok x s) (corrupt rest) f h k d = elim d [ ]
  Decodes-same (throws e s) (got n rest) f h k d = elim d [ ]
  Decodes-same aborts v f h k d = elim d [ ]
  Decodes-same undefined v f h k d = elim d [ ]
  Decodes-same diverges v f h k d = elim d [ ]

  from_zero : (width n : ℕ) → word width 0 0 n ≡ n % 2 ^ width
  from_zero width n = ap (λ (t : ℕ). t % 2 ^ width) (omega arith)

  pub read_varint32-Decodes :
      (s : S) (xs : List ℕ)
      → Left s xs
      → Decodes (read_varint32 ⦃impl = impl⦄ s) (decode_varint 32 5 xs)
  unfolding read_varint32 decode_varint
  read_varint32-Decodes s xs left =
      Decodes-same _ (decode_groups 5 xs) _ _ (from_zero 32) (
        varint_loop-Decodes 32 5 0 0 _ s xs (λ t rest l. (refl, l)) (omega arith) (omega arith)
          left)

  pub read_varint64-Decodes :
      (s : S) (xs : List ℕ)
      → Left s xs
      → Decodes (read_varint64 ⦃impl = impl⦄ s) (decode_varint 64 10 xs)
  unfolding read_varint64 decode_varint
  read_varint64-Decodes s xs left = Decodes-same _ (decode_groups 10 xs) _ _ (from_zero 64) (
      varint_loop-Decodes 64 10 0 0 _ s xs (λ t rest l. (refl, l)) (omega arith) (omega arith) left)
