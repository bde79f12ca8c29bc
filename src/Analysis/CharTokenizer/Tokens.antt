-- ===== src/Analysis/CharTokenizer/Tokens.antt =====
-- The tokens of a text, apart from the class that finds them.
use lucanthrope.Base.{
  ℕ, ◌+◌, ◌≤◌, inl, inr, Bool, Bool-cases, List, [], ◌∷◌, ◌++◌, length, ◌==◌, if◌then◌else◌, arith,
}
use lucanthrope.Analysis.Token.{Token, new_token}

abbrev pub finish : List ℕ → ℕ → List Token → List Token
finish [] start ts = ts
finish (c ∷ cs) start ts = new_token (c ∷ cs) start (start + length (c ∷ cs)) ∷ ts

-- The tokens of a text that stands at `at`: the longest runs of token characters, normalized. A
-- run that has begun at `start` has the characters `run` so far.
unfoldable pub tokens : (ℕ → Bool) → (ℕ → ℕ) → List ℕ → ℕ → ℕ → List ℕ → List Token
tokens pred norm run start at [] = finish run start []
tokens pred norm run start at (c ∷ cs) =
    let longer =
      tokens pred norm (run ++ (norm c ∷ [])) (if length run == 0 then at else start) (at + 1) cs in
    let rest = tokens pred norm [] 0 (at + 1) cs in if pred c then longer else finish run start rest

length-finish :
    (run : List ℕ) (start : ℕ) (ts : List Token) → length (finish run start ts) ≤ length ts + 1
length-finish [] start ts = omega arith
length-finish (x ∷ run) start ts = omega arith

-- A text has no more tokens than characters, but for a run that has begun before it.
pub length-tokens :
    (pred : ℕ → Bool) (norm : ℕ → ℕ) (cs run : List ℕ) (start at : ℕ)
    → length (tokens pred norm run start at cs) ≤ length cs + 1
unfolding tokens
length-tokens pred norm [] [] start at = omega arith
length-tokens pred norm [] (x ∷ run) start at = omega arith
length-tokens pred norm (c ∷ cs) run start at = elim (Bool-cases (pred c)) [
  | inl char ↦ rw char (
      omega (
        arith,
        length-tokens pred norm cs (run ++ (norm c ∷ [])) (if length run == 0 then at else start)
            (at + 1),
      ))
  | inr other ↦ rw other (
      omega (
        arith,
        length-finish run start (tokens pred norm [] 0 (at + 1) cs),
        length-tokens pred norm cs [] 0 (at + 1),
      ))
]
