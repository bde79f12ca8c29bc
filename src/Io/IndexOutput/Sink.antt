-- ===== src/Io/IndexOutput/Sink.antt =====
-- What a stream below IndexOutput promises, and what `writeByte` and `write` then do.
use lucanthrope.Base.{
  ℕ, ◌+◌, ◌≤◌, ◌<◌, ◌≡◌, ◌≢◌, ◌⊎◌, inl, inr, true, false, List, [], ◌∷◌, ◌++◌, length,
  length-append, arith,
}
use lucanthrope.Exception.{ok}
use lucanthrope.Io.IndexOutput.{OutputImpl}

-- `Ready s c p`: the stream is well formed, the cursor is at byte `c` of the file, and `pos` is
-- `p`. `Byte s i b`: byte `i` of the file is `b`.
pub record IsSink {S : Type 0} (impl : OutputImpl S) : Type 1 where
  pub Ready : S → ℕ → ℕ → Type 0
  pub Byte : S → ℕ → ℕ → Type 0
  pub store :
      (s : S) (c p b : ℕ)
      → Ready s c p
      → 0 < impl.available s
      → (s' : S) × (impl.store_byte b s ≡ ok tt s')
        × Ready s' (c + 1) p
        × (impl.available s' + 1 ≡ impl.available s)
        × (impl.has_buffer s' ≡ impl.has_buffer s)
        × Byte s' c b
        × ((i x : ℕ) → i ≢ c → Byte s i x → Byte s' i x)
  pub init :
      (s : S) (c p : ℕ)
      → Ready s c p
      → impl.has_buffer s ≡ false
      → (s' : S) × (impl.init_internal_buffer s ≡ ok tt s')
        × Ready s' c p
        × (0 < impl.available s')
        × (impl.has_buffer s' ≡ true)
        × ((i x : ℕ) → Byte s i x → Byte s' i x)
  pub empty : (s : S) (c p : ℕ) → Ready s c p → impl.has_buffer s ≡ false → impl.available s ≡ 0
  -- A full buffer is not empty, and its flush makes room.
  pub full :
      (s : S) (c p : ℕ)
      → Ready s c p
      → impl.has_buffer s ≡ true
      → impl.available s ≡ 0
      → 0 < impl.get_num_writable_bytes s
  pub advance :
      (s : S) (c : ℕ)
      → Ready s c c
      → impl.has_buffer s ≡ true
      → impl.available s ≡ 0
      → (s' : S) × (impl.write_impl s ≡ ok tt s')
        × Ready (impl.reset_cursor s') c c
        × (0 < impl.available (impl.reset_cursor s'))
        × (impl.has_buffer (impl.reset_cursor s') ≡ true)
        × ((i x : ℕ) → Byte s i x → Byte (impl.reset_cursor s') i x)
  pub flush_lem :
      (s : S) (c : ℕ)
      → Ready s c c
      → 0 < impl.get_num_writable_bytes s
      → (s' : S) × (impl.write_impl s ≡ ok tt s')
        × Ready (impl.reset_cursor s') c c
        × ((i x : ℕ) → Byte s i x → Byte (impl.reset_cursor s') i x)
  pub move_lem :
      (s : S) (c p n : ℕ)
      → Ready s c p
      → Ready (impl.move n s) c (p + n)
        × (impl.available (impl.move n s) ≡ impl.available s)
        × (impl.has_buffer (impl.move n s) ≡ impl.has_buffer s)
  pub move-Byte : (s : S) (n i x : ℕ) → Byte s i x → Byte (impl.move n s) i x

module _ {S : Type 0} {impl : OutputImpl S} (sink : IsSink impl) where
  open sink use {Ready, Byte}

  -- The bytes from position `p` on.
  abbrev pub Holds : S → ℕ → List ℕ → Type 0
  Holds s p [] = Unit {0}
  Holds s p (b ∷ bs) = Byte s p b × Holds s (p + 1) bs

  -- `bs` were written at `p`, and nothing else was changed.
  pub record Wrote (s : S) (p : ℕ) (bs : List ℕ) (s' : S) : Type 0 where
    pub holds : Holds s' p bs
    pub kept : (i x : ℕ) → (i < p) ⊎ (p + length bs ≤ i) → Byte s i x → Byte s' i x

  pub Holds-kept :
      (s s' : S) (p : ℕ) (bs : List ℕ)
      → ((i x : ℕ) → p ≤ i → i < p + length bs → Byte s i x → Byte s' i x)
      → Holds s p bs
      → Holds s' p bs
  Holds-kept s s' p [] k h = tt
  Holds-kept s s' p (b ∷ bs) k h = (
    k p b (omega arith) (omega arith) h.0,
    Holds-kept s s' (p + 1) bs (λ i x lo hi. k i x (omega arith) (omega arith)) h.1,
  )

  Holds-append :
      (s : S) (p q : ℕ) (xs ys : List ℕ)
      → q ≡ p + length xs
      → Holds s p xs
      → Holds s q ys
      → Holds s p (xs ++ ys)
  Holds-append s p q [] ys e h k = let e' : q ≡ p = omega arith in rw e' at k
  Holds-append s p q (x ∷ xs) ys e h k = (h.0, Holds-append s (p + 1) q xs ys (omega arith) h.1 k)

  -- Two writes one after the other are one.
  pub Wrote-append :
      (s t u : S) (p q : ℕ) (xs ys : List ℕ)
      → q ≡ p + length xs
      → Wrote s p xs t
      → Wrote t q ys u
      → Wrote s p (xs ++ ys) u
  Wrote-append s t u p q xs ys e v w = record {
    holds =
        Holds-append u p q xs ys e
          (Holds-kept t u p xs (λ i x lo hi. w.kept i x (inl (omega arith))) v.holds) w.holds;
    kept = λ i x out b. elim out [
      | inl before ↦ w.kept i x (inl (omega arith)) (v.kept i x (inl before) b)
      | inr after ↦
          w.kept i x (inr (omega (arith, length-append xs ys)))
            (v.kept i x (inr (omega (arith, length-append xs ys))) b)
    ];
  }
