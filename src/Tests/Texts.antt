-- ===== src/Tests/Texts.antt =====
-- Runs of the theorems on tokens and analyzers.
use lucanthrope.Base.{
  ℕ, ◌%◌, ◌^◌, ◌↔◌, ◌+◌, ◌≡◌, refl, true, false, List, [], ◌∷◌, map, All, arith, str_eq_iff,
}
use lucanthrope.Exception.{ok, undefined}
use lucanthrope.Analysis.Token.{Token, new_token, new_typed_token, Delivers}
use lucanthrope.Analysis.Token.Printing.{token_to_string, token_to_string_lem}
use lucanthrope.Analysis.CharTokenizer.{
  IStream, CharTokenizer, new_tokenizer, next, char_tokenizer, isalpha_predicate,
  iswhitespace_predicate, tolower_normalizer, noop_normalizer, is_alpha, to_lower, is_no_space,
  same_char,
}
use lucanthrope.Analysis.CharTokenizer.Tokens.{tokens}
use lucanthrope.Analysis.CharTokenizer.Rounds.{tokenizer_lem}
use lucanthrope.Analysis.Analyzers.LowerCase.{simple_analyzer_lem}
use lucanthrope.Analysis.CharTokenizer.Positions.{InOrder, token_positions}
use lucanthrope.Analysis.CharTokenizer.End.{ghost_char_lem}
use lucanthrope.Analysis.CharTokenizer.Defined.{HasCtype}
use lucanthrope.Analysis.CharTokenizer.Letters.{negative_char_lem}
use lucanthrope.Analysis.Filters.{new_filter, lower_case_filter}
use lucanthrope.Analysis.Filters.Delivery.{kept, lowered}
use lucanthrope.Analysis.Analyzers.{
  simple_analyzer, white_space_analyzer, stop_analyzer, new_wrapper, add_analyzer, get_token_stream,
}
use lucanthrope.Analysis.Analyzers.Streams.{stop_analyzer_lem, add_analyzer_lem}

-- "The T!"
abbrev sample : List ℕ
sample = 84 ∷ 104 ∷ 101 ∷ 32 ∷ 84 ∷ 33 ∷ []

abbrev stream_of : List ℕ → IStream
stream_of bytes = record { chars = bytes; eof = false }

tokens_of_sample :
    tokens is_alpha to_lower [] 0 0 sample
    ≡ new_token (116 ∷ 104 ∷ 101 ∷ []) 0 3 ∷ new_token (116 ∷ []) 4 5 ∷ []
unfolding tokens
tokens_of_sample = refl

sample-HasCtype : All HasCtype sample
sample-HasCtype = (refl, (refl, (refl, (refl, (refl, (refl, tt))))))

-- A blank and a letter stand before a byte that is negative as a `char`.
negative_char_lem_example :
    next isalpha_predicate tolower_normalizer (new_tokenizer (stream_of (32 ∷ 104 ∷ 228 ∷ 32 ∷ [])))
    ≡ undefined
negative_char_lem_example =
    negative_char_lem (32 ∷ []) (104 ∷ []) 228 (32 ∷ []) ((refl, refl), tt) ((refl, refl), tt) refl

-- A text with a blank, and the '\xff' that WhiteSpaceTokenizer finds behind it.
abbrev two_words : List ℕ
two_words = 104 ∷ 105 ∷ 32 ∷ 106 ∷ []

tokenizer_lem_example :
    Delivers
      (char_tokenizer iswhitespace_predicate noop_normalizer)
      (new_tokenizer (stream_of two_words))
      (tokens is_no_space same_char [] 0 0 (104 ∷ 105 ∷ 32 ∷ 106 ∷ 255 ∷ []))
tokenizer_lem_example =
    tokenizer_lem iswhitespace_predicate noop_normalizer is_no_space same_char two_words
      (refl, refl) ((refl, refl), ((refl, refl), ((refl, refl), ((refl, refl), tt)))) (omega arith)

simple_analyzer_lem_example :
    let made = simple_analyzer (stream_of sample) "title" in
    let letters = char_tokenizer isalpha_predicate noop_normalizer in
    let lower = map lowered (tokens is_alpha same_char [] 0 0 sample) in
    Delivers made.stream made.state lower
    × Delivers (lower_case_filter letters) (new_filter (new_tokenizer (stream_of sample))) lower
simple_analyzer_lem_example = simple_analyzer_lem sample "title" sample-HasCtype (omega arith)

ghost_char_lem_example :
    (s : CharTokenizer) × (next iswhitespace_predicate noop_normalizer
        (new_tokenizer (stream_of (104 ∷ 105 ∷ [])))
      ≡ ok true s)
    × (s.tok ≡ new_token (104 ∷ 105 ∷ 255 ∷ []) 0 3)
ghost_char_lem_example =
    ghost_char_lem is_no_space same_char (104 ∷ 105 ∷ []) refl (refl, (refl, tt)) (omega arith)

abbrev the : List ℕ
the = 116 ∷ 104 ∷ 101 ∷ []

stop_analyzer_lem_example :
    let made = stop_analyzer (the ∷ []) (stream_of sample) "body" in
    Delivers made.stream made.state (
      kept
        (char_tokenizer isalpha_predicate tolower_normalizer)
        (the ∷ [])
        (tokens is_alpha to_lower [] 0 0 sample))
stop_analyzer_lem_example = stop_analyzer_lem (the ∷ []) sample "body" sample-HasCtype (omega arith)

add_analyzer_lem_example :
    let w = add_analyzer "title" white_space_analyzer (new_wrapper simple_analyzer) in
    (get_token_stream w (stream_of sample) "title" ≡ white_space_analyzer (stream_of sample) "")
    × (get_token_stream w (stream_of sample) "body"
        ≡ get_token_stream (new_wrapper simple_analyzer) (stream_of sample) "body")
    × (get_token_stream w (stream_of sample) ""
        ≡ (new_wrapper simple_analyzer).default_analyzer (stream_of sample) "")
add_analyzer_lem_example =
    add_analyzer_lem "title" "body" white_space_analyzer (new_wrapper simple_analyzer)
      (stream_of sample) (ground (arith, str_eq_iff "title" ""))
      (ground (arith, str_eq_iff "title" "body"))

token_positions_example :
    (ts : List Token) × Delivers
      (char_tokenizer isalpha_predicate tolower_normalizer)
      (new_tokenizer (stream_of sample))
      ts
    × InOrder to_lower sample 0 ts
token_positions_example =
    token_positions isalpha_predicate tolower_normalizer is_alpha to_lower sample (refl, refl)
      (
        (refl, refl),
        ((refl, refl), ((refl, refl), ((refl, refl), ((refl, refl), ((refl, refl), tt))))),
      )
      refl (omega arith)

token_to_string_lem_example :
    (token_to_string (new_typed_token the 0 3 [])
      ≡ token_to_string (new_typed_token the 0 (2 ^ 32 + 3) []))
    ↔ ((◌≡◌ {A = ℕ} 0 0) × (3 % 2 ^ 32 ≡ (2 ^ 32 + 3) % 2 ^ 32))
token_to_string_lem_example = token_to_string_lem the [] 0 3 0 (2 ^ 32 + 3)
