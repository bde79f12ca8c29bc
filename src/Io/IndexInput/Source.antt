-- ===== src/Io/IndexInput/Source.antt =====
-- What a stream below IndexInput promises: which bytes it delivers next.
use lucanthrope.Base.{
  ℕ, ◌+◌, ◌≤◌, ◌<◌, ◌≡◌, Bool, true, false, List, [], ◌∷◌, length, ltb, inl, inr, Bool-cases, arith,
}
use lucanthrope.Exception.{ok}
use lucanthrope.Io.IndexInput.{InputImpl, eof, read_byte}

-- `Ahead ends s xs`: the next bytes are `xs`, and with `ends` no byte follows them.
pub record IsSource {S : Type 0} (impl : InputImpl S) : Type 1 where
  pub Ahead : Bool → S → List ℕ → Type 0
  pub next :
      (ends : Bool) (s : S) (x : ℕ) (xs : List ℕ)
      → Ahead ends s (x ∷ xs)
      → 0 < impl.get_num_readable_bytes s
      → (s' : S) × (impl.next_byte s ≡ ok x s')
        × Ahead ends s' xs
        × (impl.get_num_readable_bytes s' + 1 ≡ impl.get_num_readable_bytes s)
  pub fill :
      (ends : Bool) (s : S) (x : ℕ) (xs : List ℕ)
      → Ahead ends s (x ∷ xs)
      → impl.get_num_readable_bytes s ≡ 0
      → (s' : S) × (impl.fill_impl s ≡ ok true s')
        × Ahead ends s' (x ∷ xs)
        × (0 < impl.get_num_readable_bytes s')
  pub within : (s : S) (xs : List ℕ) → Ahead true s xs → impl.get_num_readable_bytes s ≤ length xs
  pub exhausted : (s : S) → Ahead true s [] → impl.fill_impl s ≡ ok false s
  pub move-Ahead :
      (ends : Bool) (s : S) (xs : List ℕ) (n : ℕ) → Ahead ends s xs → Ahead ends (impl.move n s) xs
  pub move-readable :
      (s : S) (n : ℕ) → impl.get_num_readable_bytes (impl.move n s) ≡ impl.get_num_readable_bytes s

module _ {S : Type 0} {impl : InputImpl S} (src : IsSource impl) where
  open src use {Ahead}

  -- With a byte ahead the end is not reported, and the buffer is not empty afterwards.
  pub eof-Ahead :
      (ends : Bool) (s : S) (x : ℕ) (xs : List ℕ)
      → Ahead ends s (x ∷ xs)
      → (s' : S) × (eof ⦃impl = impl⦄ s ≡ ok false s')
        × Ahead ends s' (x ∷ xs)
        × (0 < impl.get_num_readable_bytes s')
  unfolding eof
  eof-Ahead ends s x xs a = elim (Bool-cases (ltb 0 (impl.get_num_readable_bytes s))) [
    | inl more ↦ (s, ground arith, a, ground arith)
    | inr none ↦
        let (s', filled, a', more) = src.fill ends s x xs a (ground arith) in
        (s', ground (arith, filled), a', more)
  ]

  -- With no byte ahead it is.
  pub eof-exhausted : (s : S) → Ahead true s [] → eof ⦃impl = impl⦄ s ≡ ok true s
  unfolding eof
  eof-exhausted s a = ground (arith, src.within s [] a, src.exhausted s a)

  pub read_byte-Ahead :
      (ends : Bool) (s : S) (x : ℕ) (xs : List ℕ)
      → Ahead ends s (x ∷ xs)
      → (s' : S) × (read_byte ⦃impl = impl⦄ s ≡ ok x s') × Ahead ends s' xs
  unfolding read_byte
  read_byte-Ahead ends s x xs a =
      let (s1, not_end, a1, more) = eof-Ahead ends s x xs a in
      let (s2, byte, a2, _) =
        src.next ends (impl.move 1 s1) x xs (src.move-Ahead ends s1 (x ∷ xs) 1 a1)
          (ground (arith, src.move-readable s1 1)) in
      (s2, ground (arith, not_end, byte), a2)
