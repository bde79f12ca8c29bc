-- ===== src/Analysis/CharTokenizer/Letters.antt =====
-- AlphaCharTokenizer, with any normalizer, on texts for which `std::isalpha` is defined, and on others.
use lucanthrope.Base.{
  ℕ, suc, ◌+◌, ◌<◌, ◌≡◌, ◌^◌, refl, Bool, true, false, List, [], ◌∷◌, ◌++◌, length, length-append,
  All, some, Bool-cases, inl, inr, arith, if◌then◌else◌, ◌==◌,
}
use lucanthrope.Exception.{undefined}
use lucanthrope.Analysis.Token.{Token, Delivers}
use lucanthrope.Analysis.CharTokenizer.{
  CharFunction, new_tokenizer, char_tokenizer, next, isalpha_predicate, tolower_normalizer,
  is_alpha, to_lower, same_char, has_ctype,
}
use lucanthrope.Analysis.CharTokenizer.Tokens.{tokens, finish}
use lucanthrope.Analysis.CharTokenizer.Rounds.{char_tokenizer-tokens}
use lucanthrope.Analysis.CharTokenizer.Defined.{HasCtype, ctype-HasCtype, before_token}

pub All-map : {P Q : ℕ → Type 0} (cs : List ℕ) → ((c : ℕ) → P c → Q c) → All P cs → All Q cs
All-map [] k all = tt
All-map (c ∷ cs) k (p, all) = (k c p, All-map cs k all)

pub All-append : (P : ℕ → Type 0) (xs ys : List ℕ) → All P xs → All P ys → All P (xs ++ ys)
All-append P [] ys all more = more
All-append P (x ∷ xs) ys (p, all) more = (p, All-append P xs ys all more)

pub letters-Delivers :
    (normalize : CharFunction ℕ) (norm : ℕ → ℕ) (text : List ℕ)
    → ((c : ℕ) → HasCtype c → normalize c ≡ some (norm c))
    → All HasCtype text
    → length text + 1 < 2 ^ 64
    → Delivers
        (char_tokenizer isalpha_predicate normalize)
        (new_tokenizer (record { chars = text; eof = false }))
        (tokens is_alpha norm [] 0 0 text)
letters-Delivers normalize norm text defined all bound =
    char_tokenizer-tokens isalpha_predicate normalize is_alpha norm text (refl, defined 255 refl)
      (All-map text (λ c has. (ctype-HasCtype is_alpha c has, defined c has)) all) refl bound

-- The bytes of the tokens are bytes of the text.
module _ (P : ℕ → Type 0) where
  abbrev pub TextsHave : List Token → Type 0
  TextsHave = All (λ (t : Token). All P t.term_text)

  finish-TextsHave :
      (run : List ℕ) (start : ℕ) (ts : List Token)
      → All P run
      → TextsHave ts
      → TextsHave (finish run start ts)
  finish-TextsHave [] start ts all more = more
  finish-TextsHave (c ∷ run) start ts all more = (all, more)

  pub tokens-TextsHave :
      (pred : ℕ → Bool) (run : List ℕ) (start at : ℕ) (cs : List ℕ)
      → All P run
      → All P cs
      → TextsHave (tokens pred same_char run start at cs)
  unfolding tokens
  tokens-TextsHave pred run start at [] all more = finish-TextsHave run start [] all tt
  tokens-TextsHave pred run start at (c ∷ cs) all (p, more) = elim (Bool-cases (pred c)) [
    | inl char ↦ rw char (
        tokens-TextsHave pred (run ++ (c ∷ [])) (if length run == 0 then at else start) (at + 1) cs
          (All-append P run (c ∷ []) all (p, tt)) more)
    | inr other ↦
        rw other (finish-TextsHave run start _ all (tokens-TextsHave pred [] 0 (at + 1) cs tt more))
  ]

-- Other bytes with `<cctype>`, then letters.
abbrev pub IsOther : ℕ → Type 0
IsOther c = HasCtype c × (is_alpha c ≡ false)

abbrev pub IsLetter : ℕ → Type 0
IsLetter c = HasCtype c × (is_alpha c ≡ true)

-- Where bytes for which `std::isalpha` is defined and which are no letters, and then letters, come
-- before a byte from 128 to 254, the first call of `next` of a LowerCaseTokenizer passes the byte to
-- `std::isalpha` as a negative number, and its behaviour is undefined.
pub negative_char_lem :
    (others letters : List ℕ) (c : ℕ) (rest : List ℕ)
    → All IsOther others
    → All IsLetter letters
    → has_ctype c ≡ false
    → next isalpha_predicate tolower_normalizer
        (new_tokenizer (record { chars = others ++ (letters ++ c ∷ rest); eof = false }))
      ≡ undefined
unfolding next new_tokenizer
negative_char_lem others letters c rest skipped found negative =
    before_token isalpha_predicate tolower_normalizer c rest (rw negative refl) others letters
      (suc (suc (length (others ++ (letters ++ c ∷ rest))))) _ 0 0
      (All-map others (λ x h. rw (h.0, h.1) refl) skipped)
      (All-map letters (λ x h. (rw (h.0, h.1) refl, (to_lower x, rw (h.0) refl))) found)
      (omega (arith, length-append others (letters ++ c ∷ rest), length-append letters (c ∷ rest)))
