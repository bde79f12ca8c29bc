-- ===== src/Analysis/CharTokenizer/Defined.antt =====
-- Texts on which the function objects of a CharTokenizer are defined, and those on which they are not.
use mathlib.Core.Path.{subst}
use lucanthrope.Base.{
  ℕ, zero, suc, ◌+◌, ◌%◌, ◌^◌, ◌≤◌, ◌≡◌, refl, sym, ◌∙◌, Bool, true, false, Bool-cases, List, [],
  ◌∷◌, ◌++◌, length, All, none, some, inl, inr, ◌==◌, if◌then◌else◌, arith,
}
use lucanthrope.Exception.{Outcome, ok, undefined}
use lucanthrope.Analysis.Token.{Token, new_token, Delivers}
use lucanthrope.Analysis.CharTokenizer.{
  IStream, get, CharTokenizer, CharFunction, total, next_rounds, next, char_tokenizer, has_ctype,
  ctype,
}

-- A byte on which the functions of `<cctype>` are defined: ASCII, or '\xff', which is `EOF`.
abbrev pub HasCtype : ℕ → Type 0
HasCtype c = has_ctype c ≡ true

pub ctype-HasCtype : {A : Type 0} (f : ℕ → A) (c : ℕ) → HasCtype c → ctype f c ≡ some (f c)
ctype-HasCtype f c h = rw h refl

module _ (is_char : CharFunction Bool) (normalize : CharFunction ℕ) (pred : ℕ → Bool)
    (norm : ℕ → ℕ) where
  -- The function objects are defined on the byte, and return this.
  abbrev pub Fits : ℕ → Type 0
  Fits c = (is_char c ≡ some (pred c)) × (normalize c ≡ some (norm c))

  module _ (last : Fits 255) where
    chars-Fits :
        (cs : List ℕ) (ended : Bool)
        → All Fits cs
        → let s : IStream = record { chars = cs; eof = ended } in
          Fits (get s).0 × All Fits (get s).1.chars
    unfolding get
    chars-Fits [] ended fits = (last, tt)
    chars-Fits (c ∷ cs) ended fits = fits

    get-Fits : (s : IStream) → All Fits s.chars → Fits (get s).0 × All Fits (get s).1.chars
    get-Fits s fits = chars-Fits s.chars s.eof fits

    rounds_same :
        (rounds tok_len start : ℕ) (s : CharTokenizer)
        → All Fits s.input.chars
        → next_rounds is_char normalize rounds tok_len start s
          ≡ next_rounds (total pred) (total norm) rounds tok_len start s
    unfolding next_rounds
    rounds_same zero tok_len start s fits = refl
    rounds_same (suc rounds) tok_len start s fits =
        let ((is, becomes), more) = get-Fits s.input fits in
        let t : CharTokenizer = record s {
          input = (get s.input).1;
          offset = (s.offset + 1) % 2 ^ 64;
        } in
        rw
          (
            is,
            becomes,
            rounds_same rounds (tok_len + 1) (if tok_len == 0 then s.offset else start)
                (record t { buffer = t.buffer ++ (norm (get s.input).0 ∷ []) }) more,
            rounds_same rounds tok_len start t more,
          )
          refl

    abbrev moved : CharTokenizer → CharTokenizer
    moved s = record s { input = (get s.input).1; offset = (s.offset + 1) % 2 ^ 64 }

    -- What is left after a call.
    abbrev FitsAfter : Outcome CharTokenizer Bool → Type 0
    FitsAfter (ok b s) = All Fits s.input.chars
    FitsAfter other = Unit {0}

    rounds-FitsAfter :
        (rounds tok_len start : ℕ) (s : CharTokenizer)
        → All Fits s.input.chars
        → FitsAfter (next_rounds (total pred) (total norm) rounds tok_len start s)
    unfolding next_rounds
    rounds-FitsAfter zero tok_len start s fits = tt
    rounds-FitsAfter (suc rounds) tok_len start s fits =
        let (_, more) = get-Fits s.input fits in
        elim (Bool-cases s.input.eof) [
          | inl ended ↦ elim (Bool-cases (tok_len == 0)) [
            | inl none_yet ↦ rw (ended, none_yet, FitsAfter) fits
            | inr begun ↦ rw (ended, begun, FitsAfter) fits
          ]
          | inr open_ ↦ elim (Bool-cases (pred (get s.input).0)) [
            | inl char ↦ subst FitsAfter (sym (rw (next_rounds, char, open_) refl)) (
                rounds-FitsAfter rounds (tok_len + 1) (if tok_len == 0 then s.offset else start)
                  (record (moved s) { buffer = s.buffer ++ (norm (get s.input).0 ∷ []) }) more)
            | inr other ↦ elim (Bool-cases (tok_len == 0)) [
              | inl none_yet ↦
                  subst FitsAfter (sym (rw (next_rounds, other, none_yet, open_) refl))
                    (rounds-FitsAfter rounds tok_len start (moved s) more)
              | inr begun ↦
                  let ends : next_rounds (total pred) (total norm) (suc rounds) tok_len start s
                      ≡ ok true (record (moved s) {
                        tok = new_token s.buffer start ((start + tok_len) % 2 ^ 64);
                      }) =
                    rw (next_rounds, other, begun, open_) refl in
                  subst FitsAfter (sym ends) more
            ]
          ]
        ]

    -- Over a text on which the function objects are defined the tokenizer delivers what one
    -- delivers whose function objects are defined everywhere and agree with them.
    pub Delivers-defined :
        (ts : List Token) (s : CharTokenizer)
        → All Fits s.input.chars
        → Delivers (char_tokenizer (total pred) (total norm)) s ts
        → Delivers (char_tokenizer is_char normalize) s ts
    unfolding char_tokenizer next
    Delivers-defined [] s fits (s', e) =
        (s', rounds_same (suc (suc (length s.input.chars))) 0 0 (record s { buffer = [] }) fits ∙ e)
    Delivers-defined (t ∷ ts) s fits (s', e, found, more) =
        let rounds : ℕ = suc (suc (length s.input.chars)) in
        let left : All Fits s'.input.chars =
          subst FitsAfter e (rounds-FitsAfter rounds 0 0 (record s { buffer = [] }) fits) in
        (
          s',
          rounds_same rounds 0 0 (record s { buffer = [] }) fits ∙ e,
          found,
          Delivers-defined ts s' left more,
        )

module _ (is_char : CharFunction Bool) (normalize : CharFunction ℕ) (c : ℕ) (cs : List ℕ)
    (undefined_char : is_char c ≡ none) where
  abbrev pub IsTokenChar : ℕ → Type 0
  IsTokenChar x = (is_char x ≡ some true) × ((y : ℕ) × (normalize x ≡ some y))

  in_token :
      (run_on : List ℕ) (rounds : ℕ) (tok : Token) (run : List ℕ) (tok_len start at : ℕ)
      → All IsTokenChar run_on
      → length run_on + 1 ≤ rounds
      → next_rounds is_char normalize rounds tok_len start (record {
        tok = tok;
        input = record { chars = run_on ++ c ∷ cs; eof = false };
        buffer = run;
        offset = at;
      })
        ≡ undefined
  unfolding next_rounds get
  in_token run_on zero tok run tok_len start at all enough = absurd (omega (arith, enough))
  in_token [] (suc rounds) tok run tok_len start at all enough = rw undefined_char refl
  in_token (x ∷ run_on) (suc rounds) tok run tok_len start at ((is, (y, becomes)), all) enough =
      rw (is, becomes)
        (in_token run_on rounds tok (run ++ (y ∷ [])) (tok_len + 1)
          (if tok_len == 0 then at else start) ((at + 1) % 2 ^ 64) all (omega arith))

  pub before_token :
      (others run_on : List ℕ) (rounds : ℕ) (tok : Token) (start at : ℕ)
      → All (λ x. is_char x ≡ some false) others
      → All IsTokenChar run_on
      → length others + length run_on + 1 ≤ rounds
      → next_rounds is_char normalize rounds 0 start (record {
        tok = tok;
        input = record { chars = others ++ (run_on ++ c ∷ cs); eof = false };
        buffer = [];
        offset = at;
      })
        ≡ undefined
  unfolding next_rounds get
  before_token others run_on zero tok start at skipped all enough = absurd (omega (arith, enough))
  before_token [] run_on (suc rounds) tok start at skipped all enough =
      in_token run_on (suc rounds) tok [] 0 start at all (omega arith)
  before_token (x ∷ others) run_on (suc rounds) tok start at (other, skipped) all enough =
      rw other
        (before_token others run_on rounds tok start ((at + 1) % 2 ^ 64) skipped all (omega arith))
