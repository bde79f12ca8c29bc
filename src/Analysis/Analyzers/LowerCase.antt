-- ===== src/Analysis/Analyzers/LowerCase.antt =====
-- LowerCaseTokenizer and SimpleAnalyzer against LowerCaseFilter.
use mathlib.Core.Path.{subst}
use lucanthrope.Base.{
  ℕ, ◌+◌, ◌^◌, ◌<◌, ◌≡◌, refl, ap, Bool, Bool-cases, inl, inr, false, String, List, [], ◌∷◌, ◌++◌,
  map, length, All, ◌==◌, if◌then◌else◌, arith,
}
use lucanthrope.Analysis.Token.{Token, Delivers}
use lucanthrope.Analysis.CharTokenizer.{
  char_tokenizer, new_tokenizer, isalpha_predicate, noop_normalizer, tolower_normalizer, is_alpha,
  to_lower, same_char,
}
use lucanthrope.Analysis.CharTokenizer.Tokens.{tokens, finish}
use lucanthrope.Analysis.CharTokenizer.Defined.{HasCtype, ctype-HasCtype}
use lucanthrope.Analysis.CharTokenizer.Letters.{letters-Delivers, tokens-TextsHave}
use lucanthrope.Analysis.Filters.{new_filter, lower_case_filter}
use lucanthrope.Analysis.Filters.Delivery.{lowered, lower_case-Delivers}
use lucanthrope.Analysis.Analyzers.{simple_analyzer}

map-append : (f : ℕ → ℕ) (xs ys : List ℕ) → map f (xs ++ ys) ≡ map f xs ++ map f ys
map-append f [] ys = refl
map-append f (x ∷ xs) ys = ap (◌∷◌ (f x)) (map-append f xs ys)

length-map : (f : ℕ → ℕ) (xs : List ℕ) → length (map f xs) ≡ length xs
length-map f [] = refl
length-map f (x ∷ xs) = omega (arith, length-map f xs)

module _ (pred : ℕ → Bool) (norm : ℕ → ℕ) where
  -- A token whose text is normalized afterwards.
  abbrev normalized : Token → Token
  normalized t = record t { term_text = map norm t.term_text }

  finish-map :
      (run : List ℕ) (start : ℕ) (ts : List Token)
      → finish (map norm run) start (map normalized ts) ≡ map normalized (finish run start ts)
  finish-map [] start ts = refl
  finish-map (c ∷ run) start ts = rw (length-map norm run) refl

  tokens-map :
      (run : List ℕ) (start at : ℕ) (cs : List ℕ)
      → tokens pred norm (map norm run) start at cs
        ≡ map normalized (tokens pred same_char run start at cs)
  unfolding tokens
  tokens-map run start at [] = finish-map run start []
  tokens-map run start at (c ∷ cs) =
      let more = tokens-map (run ++ (c ∷ [])) (if length run == 0 then at else start) (at + 1) cs in
      let rest = tokens-map [] 0 (at + 1) cs in
      elim (Bool-cases (pred c)) [
        | inl char ↦ rw (char, length-map norm run) (rw (map-append norm run (c ∷ [])) at more)
        | inr other ↦
            rw (other, rest) (finish-map run start (tokens pred same_char [] 0 (at + 1) cs))
      ]

-- For a text of ASCII characters and '\xff', for which `std::isalpha` and `std::tolower` are defined,
-- shorter than 2 ^ 64 - 1 bytes, the stream of a SimpleAnalyzer, which is a LowerCaseTokenizer, and
-- LowerCaseFilter over AlphaCharTokenizer deliver the same tokens: its longest runs of letters, in
-- lower case.
pub simple_analyzer_lem :
    (text : List ℕ) (field_name : String)
    → All HasCtype text
    → length text + 1 < 2 ^ 64
    → let made = simple_analyzer (record { chars = text; eof = false }) field_name in
      let letters = char_tokenizer isalpha_predicate noop_normalizer in
      let lower = map lowered (tokens is_alpha same_char [] 0 0 text) in
      Delivers made.stream made.state lower
      × Delivers
          (lower_case_filter letters)
          (new_filter (new_tokenizer (record { chars = text; eof = false })))
          lower
unfolding simple_analyzer
simple_analyzer_lem text field_name all bound = (
  subst
      (Delivers (char_tokenizer isalpha_predicate tolower_normalizer)
        (new_tokenizer (record { chars = text; eof = false })))
      (tokens-map is_alpha to_lower [] 0 0 text)
      (letters-Delivers tolower_normalizer to_lower text (ctype-HasCtype to_lower) all bound),
  lower_case-Delivers (char_tokenizer isalpha_predicate noop_normalizer) _ _ _
      (tokens-TextsHave HasCtype is_alpha [] 0 0 text tt all)
      (letters-Delivers noop_normalizer same_char text (λ c has. refl) all bound),
)
