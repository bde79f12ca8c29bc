-- ===== src/Analysis/CharTokenizer/Found.antt =====
-- Which token a call of `next` finds, and what is left then.
use lucanthrope.Base.{
  ℕ, suc, ◌+◌, ◌%◌, ◌^◌, ◌≤◌, ◌<◌, ◌≡◌, ◌⊎◌, inl, inr, refl, Bool, true, false, Bool-cases, List,
  [], ◌∷◌, ◌++◌, length, ◌==◌, if◌then◌else◌, arith, length-append,
}
use lucanthrope.Exception.{Outcome, ok}
use lucanthrope.Analysis.Token.{Token, new_token}
use lucanthrope.Analysis.CharTokenizer.{total, get, CharTokenizer, next_rounds}
use lucanthrope.Analysis.CharTokenizer.Tokens.{tokens}
use lucanthrope.Analysis.CharTokenizer.Steps.{state, step_char, step_skip, step_collect}

-- At the end of the input `get` returns `EOF`, which is '\xff' as a `char`.
abbrev pub ghost : (ℕ → Bool) → List ℕ
ghost pred = if pred 255 then 255 ∷ [] else []

module _ (pred : ℕ → Bool) (norm : ℕ → ℕ) where
  -- What is left to deliver.
  unfoldable pub Rest : CharTokenizer → List Token → Type 0
  Rest s ts =
      ((s.input.eof ≡ true) × (ts ≡ []))
      ⊎ ((s.input.eof ≡ false)
          × (ts ≡ tokens pred norm [] 0 s.offset (s.input.chars ++ ghost pred))
          × (s.offset + length s.input.chars + 1 < 2 ^ 64))

  -- A call of `next`, or of its loop, found the first of these tokens.
  unfoldable pub Found : Outcome CharTokenizer Bool → List Token → Type 0
  Found o [] = (s' : CharTokenizer) × (o ≡ ok false s')
  Found o (t ∷ ts) = (s' : CharTokenizer) × (o ≡ ok true s') × (s'.tok ≡ t) × Rest s' ts

  -- The run that has begun.
  abbrev pub Begun : List ℕ → ℕ → ℕ → Type 0
  Begun [] start at = start ≡ 0
  Begun (c ∷ cs) start at = start + length (c ∷ cs) ≤ at

  pub Begun-longer :
      (run : List ℕ) (start at c : ℕ)
      → Begun run start at
      → Begun (run ++ (c ∷ [])) (if length run == 0 then at else start) (at + 1)
  Begun-longer [] start at c b = omega arith
  Begun-longer (x ∷ run) start at c b = ground (arith, length-append run (c ∷ []))

  -- The state after the last token.
  abbrev at_end : List ℕ → ℕ → ℕ → ℕ → CharTokenizer
  at_end run start end_ at =
      state pred norm (new_token run start (end_ % 2 ^ 64)) [] true run ((at + 1) % 2 ^ 64)

  end_char :
      (rounds : ℕ) (tok : Token) (run : List ℕ) (start at : ℕ)
      → pred 255 ≡ true
      → Begun run start at
      → at + 1 < 2 ^ 64
      → Found
          (next_rounds
            (total pred)
            (total norm)
            (suc (suc rounds))
            (length run)
            start
            (state pred norm tok [] false run at))
          (tokens pred norm run start at (255 ∷ []))
  unfolding next_rounds get tokens Found Rest
  end_char rounds tok [] start at char b bound =
      rw (char, Found)
        (
          at_end (norm 255 ∷ []) at (at + 1) at,
          ground (arith, char),
          ground (arith, bound),
          inl (refl, refl),
        )
  end_char rounds tok (x ∷ run) start at char b bound =
      let longer : List ℕ = run ++ (norm 255 ∷ []) in
      let size : length longer ≡ length run + 1 = length-append run (norm 255 ∷ []) in
      let ends : (start + (length (x ∷ run) + 1)) % 2 ^ 64 ≡ start + length (x ∷ longer) =
        omega (arith, b, size) in
      let begun : (length (x ∷ run) == 0) ≡ false = ground arith in
      rw (char, Found)
        (
          at_end (x ∷ longer) start (start + (length (x ∷ run) + 1)) at,
          ground (arith, char),
          rw (ends, begun) refl,
          inl (refl, refl),
        )

  end_other :
      (rounds : ℕ) (tok : Token) (run : List ℕ) (start at : ℕ)
      → pred 255 ≡ false
      → Begun run start at
      → at + 1 < 2 ^ 64
      → Found
          (next_rounds
            (total pred)
            (total norm)
            (suc (suc rounds))
            (length run)
            start
            (state pred norm tok [] false run at))
          (tokens pred norm run start at [])
  unfolding next_rounds get tokens Found Rest
  end_other rounds tok [] start at no_char b bound =
      (state pred norm tok [] true [] ((at + 1) % 2 ^ 64), ground (arith, no_char))
  end_other rounds tok (x ∷ run) start at no_char b bound =
      let ends : (start + length (x ∷ run)) % 2 ^ 64 ≡ start + length (x ∷ run) =
        omega (arith, b) in
      (
        at_end (x ∷ run) start (start + length (x ∷ run)) at,
        ground (arith, no_char),
        rw ends refl,
        inl (refl, refl),
      )

  pub rounds_at_end :
      (rounds : ℕ) (tok : Token) (run : List ℕ) (start at : ℕ)
      → Begun run start at
      → at + 1 < 2 ^ 64
      → Found
          (next_rounds
            (total pred)
            (total norm)
            (suc (suc rounds))
            (length run)
            start
            (state pred norm tok [] false run at))
          (tokens pred norm run start at (ghost pred))
  rounds_at_end rounds tok run start at b bound = elim (Bool-cases (pred 255)) [
    | inl char ↦ rw char (end_char rounds tok run start at char b bound)
    | inr other ↦ rw other (end_other rounds tok run start at other b bound)
  ]

  pub Found-char :
      (rounds : ℕ) (tok : Token) (c : ℕ) (cs run : List ℕ) (start at : ℕ)
      → pred c ≡ true
      → at + 1 < 2 ^ 64
      → Found
          (next_rounds
            (total pred)
            (total norm)
            rounds
            (length (run ++ (norm c ∷ [])))
            (if length run == 0 then at else start)
            (state pred norm tok cs false (run ++ (norm c ∷ [])) (at + 1)))
          (tokens pred norm
            (run ++ (norm c ∷ []))
            (if length run == 0 then at else start)
            (at + 1)
            (cs ++ ghost pred))
      → Found
          (next_rounds
            (total pred)
            (total norm)
            (suc rounds)
            (length run)
            start
            (state pred norm tok (c ∷ cs) false run at))
          (tokens pred norm run start at (c ∷ cs ++ ghost pred))
  unfolding tokens
  Found-char rounds tok c cs run start at is_char bound f =
      rw (step_char pred norm rounds tok c cs run start at is_char bound, is_char) f

  pub Found-other :
      (rounds : ℕ) (tok : Token) (c : ℕ) (cs run : List ℕ) (start at : ℕ)
      → pred c ≡ false
      → Begun run start at
      → at + length cs + 2 < 2 ^ 64
      → Found
          (next_rounds
            (total pred)
            (total norm)
            rounds
            0
            0
            (state pred norm tok cs false [] (at + 1)))
          (tokens pred norm [] 0 (at + 1) (cs ++ ghost pred))
      → Found
          (next_rounds
            (total pred)
            (total norm)
            (suc rounds)
            (length run)
            start
            (state pred norm tok (c ∷ cs) false run at))
          (tokens pred norm run start at (c ∷ cs ++ ghost pred))
  unfolding tokens Found Rest
  Found-other rounds tok c cs [] start at other b bound f =
      rw (b, step_skip pred norm rounds tok c cs 0 at other (omega arith), other) f
  Found-other rounds tok c cs (x ∷ run) start at other b bound f =
      rw (other, Found)
        (
          _,
          step_collect pred norm rounds tok c x cs run start at other b (omega arith),
          refl,
          inr (refl, refl, omega arith),
        )
