-- ===== src/Analysis/CharTokenizer/Positions.antt =====
-- Where the tokens of a text stand in it.
use lucanthrope.Base.{
  ℕ, zero, suc, ◌+◌, ◌-◌, ◌^◌, ◌%◌, ◌≤◌, ◌<◌, ◌≡◌, refl, sym, ap, ◌∙◌, inl, inr, Bool, false,
  Bool-cases, List, [], ◌∷◌, ◌++◌, map, length, length-append, take, drop, drop-split, ◌==◌,
  if◌then◌else◌, arith, All,
}
use lucanthrope.Analysis.Token.{Token, Delivers}
use lucanthrope.Analysis.CharTokenizer.{CharFunction, new_tokenizer, char_tokenizer}
use lucanthrope.Analysis.CharTokenizer.Defined.{Fits}
use lucanthrope.Analysis.CharTokenizer.Tokens.{finish, tokens}
use lucanthrope.Analysis.CharTokenizer.Rounds.{char_tokenizer-tokens}

take-snoc :
    (n : ℕ) (xs ys : List ℕ) (c : ℕ) → drop n xs ≡ c ∷ ys → take (suc n) xs ≡ take n xs ++ (c ∷ [])
take-snoc zero [] ys c e = cc
take-snoc zero (x ∷ xs) ys c e = cc
take-snoc (suc n) [] ys c e = cc
take-snoc (suc n) (x ∷ xs) ys c e = ap (◌∷◌ x) (take-snoc n xs ys c e)

drop-suc : (n : ℕ) (xs ys : List ℕ) (c : ℕ) → drop n xs ≡ c ∷ ys → drop (suc n) xs ≡ ys
drop-suc zero [] ys c e = cc
drop-suc zero (x ∷ xs) ys c e = cc
drop-suc (suc n) [] ys c e = cc
drop-suc (suc n) (x ∷ xs) ys c e = drop-suc n xs ys c e

map-snoc : (f : ℕ → ℕ) (xs : List ℕ) (c : ℕ) → map f (xs ++ (c ∷ [])) ≡ map f xs ++ (f c ∷ [])
map-snoc f [] c = refl
map-snoc f (x ∷ xs) c = ap (◌∷◌ (f x)) (map-snoc f xs c)

module _ (norm : ℕ → ℕ) (text : List ℕ) where
  -- The normalized bytes from `start` to before `end_`.
  abbrev pub slice : ℕ → ℕ → List ℕ
  slice start end_ = map norm (take (end_ - start) (drop start text))

  -- The tokens stand one behind the other, from `from` on, and each has the bytes of its place.
  abbrev pub InOrder : ℕ → List Token → Type 0
  InOrder from [] = from ≤ length text
  InOrder from (t ∷ ts) =
      (from ≤ t.start_pos)
      × (t.start_pos < t.end_pos)
      × (t.term_text ≡ slice t.start_pos t.end_pos)
      × InOrder t.end_pos ts

  -- A run before position `at`, behind the tokens that end at `from`.
  abbrev Runs : ℕ → List ℕ → ℕ → ℕ → Type 0
  Runs from [] start at = from ≤ at
  Runs from (x ∷ run) start at =
      (from ≤ start)
      × (start + length (x ∷ run) ≡ at)
      × ((x ∷ run) ≡ map norm (take (length (x ∷ run)) (drop start text)))

  Runs-longer :
      (from : ℕ) (run : List ℕ) (start at c : ℕ) (cs : List ℕ)
      → Runs from run start at
      → drop at text ≡ c ∷ cs
      → Runs from (run ++ (norm c ∷ [])) (if length run == 0 then at else start) (at + 1)
  Runs-longer from [] start at c cs r e =
      (r, omega arith, ap (map norm) (sym (take-snoc 0 (drop at text) cs c e)))
  Runs-longer from (x ∷ run) start at c cs r e =
      let n : ℕ = length (x ∷ run) in
      let past : at - start ≡ n = omega arith in
      let next : drop n (drop start text) ≡ c ∷ cs =
        rw past at (drop-split start at text (omega arith)) ∙ e in
      let longer : map norm (take (suc n) (drop start text))
          ≡ map norm (take n (drop start text)) ++ (norm c ∷ []) =
        ap (map norm) (take-snoc n (drop start text) cs c next)
        ∙ map-snoc norm (take n (drop start text)) c in
      let len : length (run ++ (norm c ∷ [])) ≡ n =
        omega (arith, length-append run (norm c ∷ [])) in
      let begun : (n == 0) ≡ false = ground arith in
      rw (begun, len) (r.0, omega arith, ap (λ (t : List ℕ). t ++ (norm c ∷ [])) r.2 ∙ sym longer)

  finish-InOrder :
      (from : ℕ) (run : List ℕ) (start at : ℕ) (ts : List Token)
      → Runs from run start at
      → at < 2 ^ 32
      → ((f : ℕ) → f ≤ at → InOrder f ts)
      → InOrder from (finish run start ts)
  finish-InOrder from [] start at ts r h k = k from r
  finish-InOrder from (x ∷ run) start at ts r h k =
      let n : ℕ = length (x ∷ run) in
      let fits : (start + n) % 2 ^ 32 ≡ start + n = omega arith in
      let past : start + n - start ≡ n = omega arith in
      rw fits (r.0, omega arith, rw past r.2, k (start + n) (omega arith))

  tokens-InOrder :
      (pred : ℕ → Bool) (cs : List ℕ) (from : ℕ) (run : List ℕ) (start at : ℕ)
      → Runs from run start at
      → drop at text ≡ cs
      → at + length cs ≡ length text
      → length text < 2 ^ 32
      → InOrder from (tokens pred norm run start at cs)
  unfolding tokens
  tokens-InOrder pred [] from run start at r e len h =
      finish-InOrder from run start at [] r (omega arith) (λ f le. omega arith)
  tokens-InOrder pred (c ∷ cs) from run start at r e len h =
      let step : drop (at + 1) text ≡ cs =
        let one : at + 1 ≡ suc at = omega arith in rw one (drop-suc at text cs c e) in
      elim (Bool-cases (pred c)) [
        | inl char ↦ rw char (
            tokens-InOrder pred cs from (run ++ (norm c ∷ [])) _ (at + 1)
              (Runs-longer from run start at c cs r e) step (omega arith) h)
        | inr other ↦ rw other (
            finish-InOrder from run start at _ r (omega arith)
              (λ f le. tokens-InOrder pred cs f [] 0 (at + 1) (omega arith) step (omega arith) h))
      ]

-- Where the function objects are defined on the bytes of a text and on '\xff', and the predicate is
-- false of '\xff', the tokens that a tokenizer delivers of the text, if it is shorter than 2 ^ 31 bytes,
-- stand one behind the other in it without overlap: each starts before it ends, ends before the text
-- does, and has as its text the normalized bytes from its start to its end.
pub token_positions :
    (is_char : CharFunction Bool) (normalize : CharFunction ℕ) (pred : ℕ → Bool) (norm : ℕ → ℕ)
    (text : List ℕ)
    → Fits is_char normalize pred norm 255
    → All (Fits is_char normalize pred norm) text
    → pred 255 ≡ false
    → length text < 2 ^ 31
    → (ts : List Token) × Delivers
        (char_tokenizer is_char normalize)
        (new_tokenizer (record { chars = text; eof = false }))
        ts
      × InOrder norm text 0 ts
token_positions is_char normalize pred norm text last fits no_char h = (
  tokens pred norm [] 0 0 text,
  char_tokenizer-tokens is_char normalize pred norm text last fits no_char (omega arith),
  tokens-InOrder norm text pred text 0 [] 0 0 (omega arith) refl (omega arith) (omega arith),
)
