-- ===== src/Analysis/Analyzers/Streams.antt =====
-- The tokens of the streams that the analyzers build, and which analyzer a field gets.
use lucanthrope.Base.{
  ℕ, ◌+◌, ◌<◌, ◌^◌, ◌≡◌, ◌≢◌, refl, false, String, List, [], ◌∷◌, length, All, if◌then◌else◌, arith,
  str_eq, str_eq_iff, some,
}
use lucanthrope.Analysis.Token.{Delivers}
use lucanthrope.Analysis.CharTokenizer.{
  IStream, char_tokenizer, isalpha_predicate, tolower_normalizer, is_alpha, to_lower,
}
use lucanthrope.Analysis.CharTokenizer.Tokens.{tokens, length-tokens}
use lucanthrope.Analysis.CharTokenizer.Defined.{HasCtype, ctype-HasCtype}
use lucanthrope.Analysis.CharTokenizer.Letters.{letters-Delivers}
use lucanthrope.Analysis.Filters.Delivery.{kept, stop-Delivers}
use lucanthrope.Analysis.Analyzers.{
  Analyzer, stop_analyzer, PerFieldAnalyzerWrapper, add_analyzer, get_token_stream, put_analyzer,
  find_analyzer,
}

-- The stream of a StopAnalyzer delivers, for a text of ASCII characters and '\xff', for which
-- `std::isalpha` and `std::tolower` are defined, shorter than 2 ^ 64 - 1 bytes and whatever field, its
-- runs of letters in lower case, with their positions, that are no stop words, in order, and then
-- reports the end.
pub stop_analyzer_lem :
    (stop_words : List (List ℕ)) (text : List ℕ) (field_name : String)
    → All HasCtype text
    → length text + 1 < 2 ^ 64
    → let made = stop_analyzer stop_words (record { chars = text; eof = false }) field_name in
      Delivers made.stream made.state (
        kept
          (char_tokenizer isalpha_predicate tolower_normalizer)
          stop_words
          (tokens is_alpha to_lower [] 0 0 text))
unfolding stop_analyzer
stop_analyzer_lem stop_words text field_name all bound =
    stop-Delivers (char_tokenizer isalpha_predicate tolower_normalizer) stop_words _ _ _
      (omega (arith, length-tokens is_alpha to_lower text [] 0 0))
      (letters-Delivers tolower_normalizer to_lower text (ctype-HasCtype to_lower) all bound)

find-put_analyzer :
    (name other : String) (a : Analyzer) (m : List (String × Analyzer))
    → find_analyzer other (put_analyzer name a m)
      ≡ (if str_eq name other then some a else find_analyzer other m)
unfolding find_analyzer put_analyzer
find-put_analyzer name other a [] = refl
find-put_analyzer name other a ((k, b) ∷ m) = ground (
  arith,
  str_eq_iff name other,
  str_eq_iff k name,
  str_eq_iff k other,
  find-put_analyzer name other a m,
)

-- After addAnalyzer with a name that is not empty a field with that name gets the new analyzer,
-- any other field gets what it got before, and an empty field name gets the default analyzer.
pub add_analyzer_lem :
    (name other : String) (a : Analyzer) (w : PerFieldAnalyzerWrapper) (input : IStream)
    → name ≢ ""
    → name ≢ other
    → (get_token_stream (add_analyzer name a w) input name ≡ a input "")
      × (get_token_stream (add_analyzer name a w) input other ≡ get_token_stream w input other)
      × (get_token_stream (add_analyzer name a w) input "" ≡ w.default_analyzer input "")
unfolding get_token_stream add_analyzer
add_analyzer_lem name other a w input some_name differ = (
  ground (
    arith,
    str_eq_iff name "",
    find-put_analyzer name name a w.analyzer_map,
    str_eq_iff name name,
  ),
  ground (arith, find-put_analyzer name other a w.analyzer_map, str_eq_iff name other),
  refl,
)
