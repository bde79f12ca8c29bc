-- ===== src/Analysis/CharTokenizer/Steps.antt =====
-- What one round of the loop of `next` does.
use lucanthrope.Base.{
  ℕ, suc, ◌+◌, ◌%◌, ◌^◌, ◌≤◌, ◌<◌, ◌≡◌, refl, Bool, true, false, List, [], ◌∷◌, ◌++◌, length, ◌==◌,
  if◌then◌else◌, arith, length-append,
}
use lucanthrope.Exception.{ok}
use lucanthrope.Analysis.Token.{Token, new_token}
use lucanthrope.Analysis.CharTokenizer.{total, get, CharTokenizer, next_rounds}

module _ (pred : ℕ → Bool) (norm : ℕ → ℕ) where
  -- Before the end of the input.
  abbrev pub state : Token → List ℕ → Bool → List ℕ → ℕ → CharTokenizer
  state tok cs ended run at = record {
    tok = tok;
    input = record { chars = cs; eof = ended };
    buffer = run;
    offset = at;
  }

  -- What one round does with a character `c`.
  pub step_char :
      (rounds : ℕ) (tok : Token) (c : ℕ) (cs run : List ℕ) (start at : ℕ)
      → pred c ≡ true
      → at + 1 < 2 ^ 64
      → next_rounds
          (total pred)
          (total norm)
          (suc rounds)
          (length run)
          start
          (state tok (c ∷ cs) false run at)
        ≡ next_rounds
            (total pred)
            (total norm)
            rounds
            (length (run ++ (norm c ∷ [])))
            (if length run == 0 then at else start)
            (state tok cs false (run ++ (norm c ∷ [])) (at + 1))
  unfolding next_rounds get
  step_char rounds tok c cs run start at is_char bound =
      let size : length run + 1 ≡ length (run ++ (norm c ∷ [])) =
        omega (arith, length-append run (norm c ∷ [])) in
      let at_next : (at + 1) % 2 ^ 64 ≡ at + 1 = omega arith in rw (is_char, size, at_next) refl

  pub step_skip :
      (rounds : ℕ) (tok : Token) (c : ℕ) (cs : List ℕ) (start at : ℕ)
      → pred c ≡ false
      → at + 1 < 2 ^ 64
      → next_rounds (total pred) (total norm) (suc rounds) 0 start (state tok (c ∷ cs) false [] at)
        ≡ next_rounds (total pred) (total norm) rounds 0 start (state tok cs false [] (at + 1))
  unfolding next_rounds get
  step_skip rounds tok c cs start at no_char bound =
      let at_next : (at + 1) % 2 ^ 64 ≡ at + 1 = omega arith in rw (no_char, at_next) refl

  pub step_collect :
      (rounds : ℕ) (tok : Token) (c x : ℕ) (cs run : List ℕ) (start at : ℕ)
      → pred c ≡ false
      → start + length (x ∷ run) ≤ at
      → at + 1 < 2 ^ 64
      → next_rounds
          (total pred)
          (total norm)
          (suc rounds)
          (length (x ∷ run))
          start
          (state tok (c ∷ cs) false (x ∷ run) at)
        ≡ ok true (
            state
              (new_token (x ∷ run) start (start + length (x ∷ run)))
              cs
              false
              (x ∷ run)
              (at + 1))
  unfolding next_rounds get
  step_collect rounds tok c x cs run start at no_char b bound =
      let at_next : (at + 1) % 2 ^ 64 ≡ at + 1 = omega arith in
      let ends : (start + length (x ∷ run)) % 2 ^ 64 ≡ start + length (x ∷ run) = omega arith in
      let begun : (length (x ∷ run) == 0) ≡ false = ground arith in
      rw (no_char, at_next, ends, begun) refl
