-- ===== src/Analysis/Analyzers.antt =====
-- SimpleAnalyzer, WhiteSpaceAnalyzer, StopAnalyzer and PerFieldAnalyzerWrapper of
-- include/lucanthrope/analysis.
pub mod Streams
pub mod LowerCase
use lucanthrope.Base.{
  ℕ, suc, String, Bool, List, [], ◌∷◌, ◌++◌, map, Option, none, some, length, str_eq, if◌then◌else◌,
  ◌==◌,
}
use lucanthrope.Analysis.Token.{Token, TokenStream, bytes_of}
use lucanthrope.Analysis.CharTokenizer.{
  IStream, CharTokenizer, new_tokenizer, char_tokenizer, isalpha_predicate, iswhitespace_predicate,
  tolower_normalizer, noop_normalizer,
}
use lucanthrope.Analysis.Filters.{TokenFilter, new_filter, stop_filter}

-- `std::unique_ptr<TokenStream>`: a stream of some class.
pub record AnyStream : Type 1 where
  pub State : Type 0
  pub stream : TokenStream State
  pub state : State

-- `getTokenStream(input, fieldName)` of an Analyzer.
abbrev pub Analyzer : Type 1
Analyzer = IStream → String → AnyStream

pub simple_analyzer : Analyzer
simple_analyzer input field_name = record {
  State = CharTokenizer;
  stream = char_tokenizer isalpha_predicate tolower_normalizer;
  state = new_tokenizer input;
}

pub white_space_analyzer : Analyzer
white_space_analyzer input field_name = record {
  State = CharTokenizer;
  stream = char_tokenizer iswhitespace_predicate noop_normalizer;
  state = new_tokenizer input;
}

-- A text has fewer tokens than the loop of the filter takes rounds.
pub stop_analyzer : List (List ℕ) → Analyzer
stop_analyzer stop_words input field_name = record {
  State = TokenFilter CharTokenizer;
  stream =
      stop_filter (char_tokenizer isalpha_predicate tolower_normalizer) stop_words
        (suc (suc (length input.chars)));
  state = new_filter (new_tokenizer input);
}

pub english_stop_words : List String
english_stop_words =
    "a" ∷ "an" ∷ "and" ∷ "are" ∷ "as" ∷ "at" ∷ "be" ∷ "been" ∷ "but" ∷ "by" ∷ "for" ∷ "if" ∷ "in"
    ∷ "into" ∷ "is" ∷ "it" ∷ "no" ∷ "not" ∷ "of" ∷ "on" ∷ "or" ∷ "s" ∷ "such" ∷ "t" ∷ "that" ∷ "the"
    ∷ "their" ∷ "then" ∷ "there" ∷ "these" ∷ "those" ∷ "they" ∷ "this" ∷ "to" ∷ "was" ∷ "were"
    ∷ "will" ∷ "with" ∷ []

-- `StopAnalyzer()`
pub default_stop_analyzer : Analyzer
unfolding stop_analyzer english_stop_words bytes_of
default_stop_analyzer = stop_analyzer (map bytes_of english_stop_words)

pub record PerFieldAnalyzerWrapper : Type 1 where
  pub analyzer_map : List (String × Analyzer)
  pub default_analyzer : Analyzer

pub new_wrapper : Analyzer → PerFieldAnalyzerWrapper
new_wrapper default_ = record { analyzer_map = []; default_analyzer = default_ }

put_analyzer : String → Analyzer → List (String × Analyzer) → List (String × Analyzer)
put_analyzer name a [] = (name, a) ∷ []
put_analyzer name a ((k, b) ∷ rest) =
    if str_eq k name then (k, a) ∷ rest else (k, b) ∷ put_analyzer name a rest

find_analyzer : String → List (String × Analyzer) → Option Analyzer
find_analyzer name [] = none
find_analyzer name ((k, a) ∷ rest) = if str_eq k name then some a else find_analyzer name rest

pub add_analyzer : String → Analyzer → PerFieldAnalyzerWrapper → PerFieldAnalyzerWrapper
unfolding put_analyzer
add_analyzer name a w = record w { analyzer_map = put_analyzer name a w.analyzer_map }

-- The field name is not passed on.
pub get_token_stream : PerFieldAnalyzerWrapper → Analyzer
unfolding find_analyzer
get_token_stream w input field_name =
    if str_eq field_name ""
    then w.default_analyzer input ""
    else elim (find_analyzer field_name w.analyzer_map) [
      | some a ↦ a input ""
      | none ↦ w.default_analyzer input ""
    ]
