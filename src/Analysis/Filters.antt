-- ===== src/Analysis/Filters.antt =====
-- LowerCaseFilter and StopFilter of include/lucanthrope/analysis.
pub mod Delivery
use lucanthrope.Base.{
  ℕ, zero, suc, Bool, true, false, not, ◌&&◌, ◌||◌, List, [], ◌∷◌, map, ◌==◌, if◌then◌else◌, Option,
  none, some,
}
use lucanthrope.Exception.{
  Outcome, ok, throws, aborts, undefined, diverges, Action, pure, modify, ◌>>=◌, ◌>>◌,
}
use lucanthrope.Analysis.Token.{Token, TokenStream, no_token}
use lucanthrope.Analysis.CharTokenizer.{tolower_normalizer}

-- `input_`, which the filter owns, and `tok`.
pub record TokenFilter (S : Type 0) : Type 0 where
  pub input : S
  pub tok : Token

abbrev pub new_filter : {S : Type 0} → S → TokenFilter S
new_filter input = record { input = input; tok = no_token }

-- The texts, compared byte for byte.
abbrev pub same_text : List ℕ → List ℕ → Bool
same_text [] [] = true
same_text [] (y ∷ ys) = false
same_text (x ∷ xs) [] = false
same_text (x ∷ xs) (y ∷ ys) = (x == y) && same_text xs ys

-- `words.find(text) != words.end()`
pub is_word : List (List ℕ) → List ℕ → Bool
is_word [] text = false
is_word (w ∷ words) text = same_text w text || is_word words text

-- The loop over the characters, which `std::tolower` need not be defined for.
abbrev lower_text : List ℕ → Option (List ℕ)
lower_text [] = some []
lower_text (c ∷ cs) = elim (tolower_normalizer c) [
  | none ↦ none
  | some x ↦ elim (lower_text cs) [ none ↦ none | some xs ↦ some (x ∷ xs) ]
]

module _ {S : Type 0} (stream : TokenStream S) where
  -- `input_->next()`
  pub next_input : Action (TokenFilter S) Bool
  next_input s = elim (stream.next s.input) [
    | ok b i ↦ ok b (record s { input = i })
    | throws e i ↦ throws e (record s { input = i })
    | aborts ↦ aborts
    | undefined ↦ undefined
    | diverges ↦ diverges
  ]

  pub lower_case_next : Action (TokenFilter S) Bool
  unfolding next_input
  lower_case_next = next_input >>= λ more s.
      let t = stream.get_token s.input in
      if more
      then elim (lower_text t.term_text) [
        | none ↦ undefined
        | some text ↦ ok true (record s { tok = record t { term_text = text } })
      ]
      else ok false s

  pub lower_case_filter : TokenStream (TokenFilter S)
  unfolding lower_case_next
  lower_case_filter = record { next = lower_case_next; get_token = λ s. s.tok }

  -- `stopWords`, which the filter refers to.
  module _ (stop_words : List (List ℕ)) where
    -- The loop of `next`, a round for each token of the input.
    pub stop_rounds : ℕ → Action (TokenFilter S) Bool
    unfolding next_input
    stop_rounds zero = λ s. diverges
    stop_rounds (suc rounds) =
        let rest = stop_rounds rounds in
        next_input >>= λ more s.
        let local_tok = stream.get_token s.input in
        if not more
        then ok false s
        else (if is_word stop_words local_tok.term_text
            then rest s
            else ok true (record s { tok = local_tok }))

    -- The stream of a filter whose loop takes so many rounds at most.
    pub stop_filter : ℕ → TokenStream (TokenFilter S)
    unfolding stop_rounds
    stop_filter rounds = record { next = stop_rounds rounds; get_token = λ s. s.tok }
