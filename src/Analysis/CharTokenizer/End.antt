-- ===== src/Analysis/CharTokenizer/End.antt =====
-- What a CharTokenizer makes of the end of its input.
use lucanthrope.Base.{
  ℕ, zero, suc, ◌+◌, ◌%◌, ◌^◌, ◌≤◌, ◌<◌, ◌≡◌, refl, ap, ◌∙◌, Bool, true, false, List, [], ◌∷◌, ◌++◌,
  length, ◌==◌, if◌then◌else◌, arith, length-append, All, map, append_assoc,
}
use lucanthrope.Exception.{ok}
use lucanthrope.Analysis.Token.{Token, new_token}
use lucanthrope.Analysis.CharTokenizer.{total, get, CharTokenizer, new_tokenizer, next_rounds, next}
use lucanthrope.Analysis.CharTokenizer.Steps.{state, step_char}

token_eq :
    {xs ys : List ℕ} {a b e f : ℕ} → xs ≡ ys → a ≡ b → e ≡ f → new_token xs a e ≡ new_token ys b f
token_eq p q r = rw (p, q, r) refl

module _ (pred : ℕ → Bool) (norm : ℕ → ℕ) where
  abbrev begin_at : List ℕ → ℕ → ℕ → ℕ
  begin_at run start at = if length run == 0 then at else start

  ghost_at_end :
      (rounds : ℕ) (tok : Token) (run : List ℕ) (start at : ℕ)
      → pred 255 ≡ true
      → begin_at run start at + length run ≡ at
      → at + 1 < 2 ^ 64
      → (s : CharTokenizer) × (next_rounds
            (total pred)
            (total norm)
            (suc (suc rounds))
            (length run)
            start
            (state pred norm tok [] false run at)
          ≡ ok true s)
        × (s.tok ≡ new_token (run ++ (norm 255 ∷ [])) (begin_at run start at) (at + 1))
  unfolding next_rounds get
  ghost_at_end rounds tok run start at char begun bound =
      let first = begin_at run start at in
      let ends : (first + (length run + 1)) % 2 ^ 64 ≡ at + 1 = omega (arith, begun) in
      let some_char : (length run + 1 == 0) ≡ false = ground arith in
      (
        record {
          tok = new_token (run ++ (norm 255 ∷ [])) first (at + 1);
          input = record { chars = []; eof = true };
          buffer = run ++ (norm 255 ∷ []);
          offset = (at + 1) % 2 ^ 64;
        },
        rw (char, some_char, ends) refl,
        refl,
      )

  ghost_rounds :
      (cs : List ℕ) (rounds : ℕ) (tok : Token) (run : List ℕ) (start at : ℕ)
      → pred 255 ≡ true
      → All (λ c. pred c ≡ true) cs
      → length cs + 2 ≤ rounds
      → begin_at run start at + length run ≡ at
      → at + length cs + 1 < 2 ^ 64
      → (s : CharTokenizer) × (next_rounds
            (total pred)
            (total norm)
            rounds
            (length run)
            start
            (state pred norm tok cs false run at)
          ≡ ok true s)
        × (s.tok
            ≡ new_token
                (run ++ map norm (cs ++ (255 ∷ [])))
                (begin_at run start at)
                (at + length cs + 1))
  ghost_rounds cs zero tok run start at char all enough begun bound = absurd (omega (arith, enough))
  ghost_rounds [] (suc zero) tok run start at char all enough begun bound =
      absurd (omega (arith, enough))
  ghost_rounds [] (suc (suc rounds)) tok run start at char all enough begun bound =
      let (s, e, t) = ghost_at_end rounds tok run start at char begun (omega arith) in
      (
        s,
        e,
        t ∙ ap (λ n. new_token (run ++ (norm 255 ∷ [])) (begin_at run start at) n) (omega arith),
      )
  ghost_rounds (c ∷ cs) (suc rounds) tok run start at char (is_char, all) enough begun bound =
      let longer : List ℕ = run ++ (norm c ∷ []) in
      let size = length-append run (norm c ∷ []) in
      let kept : begin_at longer (begin_at run start at) (at + 1) ≡ begin_at run start at =
        ground (arith, size) in
      let (s, e, t) =
        ghost_rounds cs rounds tok longer (begin_at run start at) (at + 1) char all (omega arith)
          (rw kept (omega (arith, size, begun))) (omega arith) in
      (
        s,
        step_char pred norm rounds tok c cs run start at is_char (omega arith) ∙ e,
        t
            ∙ token_eq (append_assoc run (norm c ∷ []) (map norm (cs ++ (255 ∷ [])))) kept
                (omega arith),
      )

-- Where the function objects are defined everywhere and the predicate holds of '\xff', as that of
-- WhiteSpaceTokenizer does, a text of token characters, shorter than 2 ^ 64 - 1 bytes, comes back
-- with a '\xff' behind it that is not in the text.
pub ghost_char_lem :
    (pred : ℕ → Bool) (norm : ℕ → ℕ) (text : List ℕ)
    → pred 255 ≡ true
    → All (λ c. pred c ≡ true) text
    → length text + 1 < 2 ^ 64
    → (s : CharTokenizer) × (next
          (total pred)
          (total norm)
          (new_tokenizer (record { chars = text; eof = false }))
        ≡ ok true s)
      × (s.tok ≡ new_token (map norm (text ++ (255 ∷ []))) 0 (length text + 1))
unfolding new_tokenizer next
ghost_char_lem pred norm text char all bound =
    let (s, e, t) =
      ghost_rounds pred norm text (suc (suc (length text))) _ [] 0 0 char all (omega arith) refl
        (omega arith) in
    (s, e, t ∙ token_eq refl refl (omega arith))
