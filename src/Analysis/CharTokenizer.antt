-- ===== src/Analysis/CharTokenizer.antt =====
-- include/lucanthrope/analysis/CharTokenizer.h.
pub mod Tokens
pub mod Positions
pub mod Steps
pub mod Found
pub mod Rounds
pub mod End
pub mod Defined
pub mod Letters
use lucanthrope.Base.{
  ℕ, zero, suc, ◌+◌, ◌-◌, ◌%◌, ◌^◌, Bool, true, false, not, ◌&&◌, ◌||◌, List, [], ◌∷◌, ◌++◌, length,
  leb, ◌==◌, Option, none, some, if◌then◌else◌,
}
use lucanthrope.Exception.{Outcome, ok, undefined, diverges, Action}
use lucanthrope.Analysis.Token.{Token, new_token, no_token, TokenStream}

-- A `std::istream`: the bytes that are left, and `eofbit`.
pub record IStream : Type 0 where
  pub chars : List ℕ
  pub eof : Bool

-- `input_.get()` as a `char`: at the end it sets `eofbit` and returns `EOF`, which is '\xff'.
pub get : IStream → ℕ × IStream
get s = elim s.chars [
  | [] ↦ (255, record { chars = []; eof = true })
  | c ∷ cs ↦ (c, record { chars = cs; eof = s.eof })
]

-- `tok`, `input_`, `buffer` and `offset`.
pub record CharTokenizer : Type 0 where
  pub tok : Token
  pub input : IStream
  pub buffer : List ℕ
  pub offset : ℕ

pub new_tokenizer : IStream → CharTokenizer
new_tokenizer input = record { tok = no_token; input = input; buffer = []; offset = 0 }

-- A function object that is called with a `char`; with `none` the behaviour of the call is
-- undefined.
abbrev pub CharFunction : Type 0 → Type 0
CharFunction A = ℕ → Option A

-- One that is defined everywhere.
abbrev pub total : {A : Type 0} → (ℕ → A) → CharFunction A
total f c = some (f c)

module _ (is_token_char : CharFunction Bool) (normalize : CharFunction ℕ) where
  -- `tok = Token(buffer, start_pos, start_pos + tok_len)`
  abbrev collect : ℕ → ℕ → Action CharTokenizer Bool
  collect tok_len start s =
      ok true (record s { tok = new_token s.buffer start ((start + tok_len) % 2 ^ 64) })

  -- The loop of `next`. `offset - 1`, once `offset` is counted up, is what it was before.
  pub next_rounds : ℕ → ℕ → ℕ → Action CharTokenizer Bool
  next_rounds zero tok_len start s = diverges
  next_rounds (suc rounds) tok_len start s =
      let c = (get s.input).0 in
      let t = record s { input = (get s.input).1; offset = (s.offset + 1) % 2 ^ 64 } in
      let start_pos = if tok_len == 0 then s.offset else start in
      let more : Outcome CharTokenizer Bool = elim (normalize c) [
        | none ↦ undefined
        | some x ↦
            next_rounds rounds (tok_len + 1) start_pos (record t { buffer = t.buffer ++ (x ∷ []) })
      ] in
      let skip = next_rounds rounds tok_len start t in
      if s.input.eof
      then (if tok_len == 0 then ok false s else collect tok_len start s)
      else elim (is_token_char c) [
        | none ↦ undefined
        | some is_char ↦
            if is_char then more else (if tok_len == 0 then skip else collect tok_len start t)
      ]

  -- A round for each byte, one for `EOF`, and one to see `eofbit`.
  pub next : Action CharTokenizer Bool
  unfolding next_rounds
  next s = next_rounds (suc (suc (length s.input.chars))) 0 0 (record s { buffer = [] })

  pub char_tokenizer : TokenStream CharTokenizer
  unfolding next
  char_tokenizer = record { next = next; get_token = λ s. s.tok }

-- The normalizers and the predicates, in the "C" locale. `std::isalpha`, `std::tolower` and
-- `std::toupper` are defined for the values of an `unsigned char` and for `EOF` only; as a `char`
-- the bytes from 128 on are negative, and '\xff' is `EOF`.
abbrev pub has_ctype : ℕ → Bool
has_ctype c = leb c 127 || (c == 255)

abbrev pub ctype : {A : Type 0} → (ℕ → A) → CharFunction A
ctype f c = if has_ctype c then some (f c) else none

abbrev is_upper : ℕ → Bool
is_upper c = leb 65 c && leb c 90

abbrev is_lower : ℕ → Bool
is_lower c = leb 97 c && leb c 122

abbrev pub is_alpha : ℕ → Bool
is_alpha c = is_upper c || is_lower c

abbrev pub to_lower : ℕ → ℕ
to_lower c = if is_upper c then c + 32 else c

abbrev pub to_upper : ℕ → ℕ
to_upper c = if is_lower c then c - 32 else c

abbrev pub is_no_space : ℕ → Bool
is_no_space c = if (c == 32) || (c == 9) || (c == 10) then false else true

abbrev pub same_char : ℕ → ℕ
same_char c = c

abbrev pub noop_normalizer : CharFunction ℕ
noop_normalizer = total same_char

abbrev pub tolower_normalizer : CharFunction ℕ
tolower_normalizer = ctype to_lower

abbrev pub toupper_normalizer : CharFunction ℕ
toupper_normalizer = ctype to_upper

abbrev pub isalpha_predicate : CharFunction Bool
isalpha_predicate = ctype is_alpha

abbrev pub iswhitespace_predicate : CharFunction Bool
iswhitespace_predicate = total is_no_space
