-- ===== src/Analysis/Filters/Delivery.antt =====
-- What the filters make of the tokens of their input.
use lucanthrope.Base.{
  ℕ, zero, suc, ◌<◌, ◌≡◌, refl, Bool, true, false, Bool-cases, List, [], ◌∷◌, map, length, All,
  some, if◌then◌else◌, inl, inr, arith,
}
use lucanthrope.Exception.{Outcome, ok}
use lucanthrope.Analysis.Token.{Token, TokenStream, Delivers}
use lucanthrope.Analysis.CharTokenizer.{to_lower}
use lucanthrope.Analysis.CharTokenizer.Defined.{HasCtype}
use lucanthrope.Analysis.Filters.{
  TokenFilter, new_filter, next_input, is_word, lower_text, lower_case_next, lower_case_filter,
  stop_rounds, stop_filter,
}

-- A token whose text is in lower case.
abbrev pub lowered : Token → Token
lowered t = record t { term_text = map to_lower t.term_text }

module _ {S : Type 0} (stream : TokenStream S) where
  lower_text_lem : (cs : List ℕ) → All HasCtype cs → lower_text cs ≡ some (map to_lower cs)
  lower_text_lem [] all = refl
  lower_text_lem (c ∷ cs) (has, all) = rw (lower_text, has, lower_text_lem cs all) refl

  -- LowerCaseFilter delivers the tokens of its input with their texts in lower case, if
  -- `std::tolower` is defined for their bytes.
  pub lower_case-Delivers :
      (ts : List Token) (s : S) (tok : Token)
      → All (λ (t : Token). All HasCtype t.term_text) ts
      → Delivers stream s ts
      → Delivers (lower_case_filter stream) (record { input = s; tok = tok }) (map lowered ts)
  unfolding lower_case_filter lower_case_next next_input
  lower_case-Delivers [] s tok all (s', e) = (record { input = s'; tok = tok }, ground (arith, e))
  lower_case-Delivers (t ∷ ts) s tok (has, all) (s', e, g, more) =
      let text = lower_text_lem t.term_text has in
      (
        record { input = s'; tok = lowered t },
        ground (arith, e, g, text),
        refl,
        lower_case-Delivers ts s' (lowered t) all more,
      )

  module _ (stop_words : List (List ℕ)) where
    pub kept : List Token → List Token
    kept [] = []
    kept (t ∷ ts) = let rest = kept ts in if is_word stop_words t.term_text then rest else t ∷ rest

    -- A call found the first of these tokens, and the filter delivers the others.
    FirstOf : ℕ → Outcome (TokenFilter S) Bool → List Token → Type 0
    FirstOf rounds o [] = (s' : TokenFilter S) × (o ≡ ok false s')
    FirstOf rounds o (t ∷ ts) =
        (s' : TokenFilter S) × (o ≡ ok true s')
        × (s'.tok ≡ t)
        × Delivers (stop_filter stream stop_words rounds) s' ts

    FirstOf-Delivers :
        (rounds : ℕ) (s : TokenFilter S) (ts : List Token)
        → FirstOf rounds (stop_rounds stream stop_words rounds s) ts
        → Delivers (stop_filter stream stop_words rounds) s ts
    unfolding FirstOf stop_filter
    FirstOf-Delivers rounds s [] f = f
    FirstOf-Delivers rounds s (t ∷ ts) f = f

    skip_lem :
        (rounds : ℕ) (t : Token) (s s' : S) (tok : Token)
        → stream.next s ≡ ok true s'
        → stream.get_token s' ≡ t
        → is_word stop_words t.term_text ≡ true
        → stop_rounds stream stop_words (suc rounds) (record { input = s; tok = tok })
          ≡ stop_rounds stream stop_words rounds (record { input = s'; tok = tok })
    unfolding stop_rounds next_input
    skip_lem rounds t s s' tok e g word = ground (arith, e, g, word)

    keep_lem :
        (rounds : ℕ) (t : Token) (s s' : S) (tok : Token)
        → stream.next s ≡ ok true s'
        → stream.get_token s' ≡ t
        → is_word stop_words t.term_text ≡ false
        → stop_rounds stream stop_words (suc rounds) (record { input = s; tok = tok })
          ≡ ok true (record { input = s'; tok = t })
    unfolding stop_rounds next_input
    keep_lem rounds t s s' tok e g other = ground (arith, e, g, other)

    stop_rounds_lem :
        (more rounds : ℕ) (ts : List Token) (s : S) (tok : Token)
        → length ts < rounds
        → length ts < more
        → Delivers stream s ts
        → FirstOf more
            (stop_rounds stream stop_words rounds (record { input = s; tok = tok }))
            (kept ts)
    unfolding kept FirstOf stop_rounds next_input
    stop_rounds_lem more zero ts s tok enough later d = absurd (omega (arith, enough))
    stop_rounds_lem more (suc rounds) [] s tok enough later (s', e) =
        (record { input = s'; tok = tok }, ground (arith, e))
    stop_rounds_lem more (suc rounds) (t ∷ ts) s tok enough later (s', e, g, d) =
        elim (Bool-cases (is_word stop_words t.term_text)) [
          | inl word ↦
              rw (skip_lem rounds t s s' tok e g word, word)
                (stop_rounds_lem more rounds ts s' tok (omega arith) (omega arith) d)
          | inr other ↦
              rw (other, FirstOf)
                (
                  record { input = s'; tok = t },
                  keep_lem rounds t s s' tok e g other,
                  refl,
                  FirstOf-Delivers more (record { input = s'; tok = t }) (kept ts)
                      (stop_rounds_lem more more ts s' t (omega arith) (omega arith) d),
                )
        ]

    -- Over a stream that delivers fewer tokens than the loop takes rounds at most, StopFilter
    -- delivers those whose text is no stop word, in order, and each call returns.
    pub stop-Delivers :
        (rounds : ℕ) (ts : List Token) (s : S)
        → length ts < rounds
        → Delivers stream s ts
        → Delivers (stop_filter stream stop_words rounds) (new_filter s) (kept ts)
    stop-Delivers rounds ts s enough d =
        FirstOf-Delivers rounds (new_filter s) (kept ts)
          (stop_rounds_lem rounds rounds ts s _ enough enough d)
