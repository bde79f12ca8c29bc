-- ===== src/Analysis/CharTokenizer/Rounds.antt =====
-- The tokens that a CharTokenizer finds.
use mathlib.Core.Path.{subst}
use lucanthrope.Base.{
  ℕ, zero, suc, ◌+◌, ◌^◌, ◌≤◌, ◌<◌, ◌≡◌, inl, inr, refl, sym, Bool, false, Bool-cases, List, [],
  ◌∷◌, ◌++◌, length, arith, append-nil, All,
}
use lucanthrope.Analysis.Token.{Token, Delivers}
use lucanthrope.Analysis.CharTokenizer.{
  total, CharFunction, CharTokenizer, new_tokenizer, next_rounds, next, char_tokenizer,
}
use lucanthrope.Analysis.CharTokenizer.Tokens.{tokens}
use lucanthrope.Analysis.CharTokenizer.Defined.{Fits, Delivers-defined}
use lucanthrope.Analysis.CharTokenizer.Steps.{state}
use lucanthrope.Analysis.CharTokenizer.Found.{
  ghost, Rest, Found, Begun, Begun-longer, rounds_at_end, Found-char, Found-other,
}

module _ (pred : ℕ → Bool) (norm : ℕ → ℕ) where
  rounds_lem :
      (cs : List ℕ) (rounds : ℕ) (tok : Token) (run : List ℕ) (start at : ℕ)
      → length cs + 2 ≤ rounds
      → Begun pred norm run start at
      → at + length cs + 1 < 2 ^ 64
      → Found pred norm
          (next_rounds
            (total pred)
            (total norm)
            rounds
            (length run)
            start
            (state pred norm tok cs false run at))
          (tokens pred norm run start at (cs ++ ghost pred))
  rounds_lem cs zero tok run start at enough b bound = absurd (omega (arith, enough))
  rounds_lem [] (suc zero) tok run start at enough b bound = absurd (omega (arith, enough))
  rounds_lem [] (suc (suc rounds)) tok run start at enough b bound =
      rounds_at_end pred norm rounds tok run start at b (omega arith)
  rounds_lem (c ∷ cs) (suc rounds) tok run start at enough b bound = elim (Bool-cases (pred c)) [
    | inl is_char ↦ Found-char pred norm rounds tok c cs run start at is_char (omega arith) (
        rounds_lem cs rounds tok (run ++ (norm c ∷ [])) _ (at + 1) (omega arith)
          (Begun-longer pred norm run start at (norm c) b) (omega arith))
    | inr other ↦
        Found-other pred norm rounds tok c cs run start at other b (omega arith)
          (rounds_lem cs rounds tok [] 0 (at + 1) (omega arith) refl (omega arith))
  ]

  next-Found :
      (s : CharTokenizer) (ts : List Token)
      → Rest pred norm s ts
      → Found pred norm (next (total pred) (total norm) s) ts
  unfolding next next_rounds Rest Found
  next-Found s ts (inl (ended, none_left)) =
      rw (none_left, Found) (record s { buffer = [] }, ground (arith, ended))
  next-Found s ts (inr (open_, same, bound)) =
      let cs = s.input.chars in
      subst (λ us. Found pred norm (next (total pred) (total norm) s) us) (sym same)
        (subst
          (λ b.
            Found pred norm
              (next_rounds (total pred) (total norm) (suc (suc (length cs))) 0 0
                (state pred norm s.tok cs b [] s.offset))
              (tokens pred norm [] 0 s.offset (cs ++ ghost pred)))
          (sym open_)
          (rounds_lem cs (suc (suc (length cs))) s.tok [] 0 s.offset (omega arith) refl bound))

  Rest-Delivers :
      (ts : List Token) (s : CharTokenizer)
      → Rest pred norm s ts
      → Delivers (char_tokenizer (total pred) (total norm)) s ts
  unfolding char_tokenizer Found
  Rest-Delivers [] s r = next-Found s [] r
  Rest-Delivers (t ∷ ts) s r =
      let (s', e, first, rest) = next-Found s (t ∷ ts) r in (s', e, first, Rest-Delivers ts s' rest)

-- Where the function objects are defined on the bytes of a text and on '\xff', a new tokenizer over the
-- text, if it is shorter than 2 ^ 64 - 1 bytes, delivers the longest runs of characters for which the
-- predicate holds, normalized and with their positions, in order, and then reports the end; each call
-- of `next` returns. Where the predicate holds of '\xff' the runs are those of the text with a '\xff'
-- behind it.
pub tokenizer_lem :
    (is_char : CharFunction Bool) (normalize : CharFunction ℕ) (pred : ℕ → Bool) (norm : ℕ → ℕ)
    (text : List ℕ)
    → Fits is_char normalize pred norm 255
    → All (Fits is_char normalize pred norm) text
    → length text + 1 < 2 ^ 64
    → Delivers
        (char_tokenizer is_char normalize)
        (new_tokenizer (record { chars = text; eof = false }))
        (tokens pred norm [] 0 0 (text ++ ghost pred))
unfolding new_tokenizer Rest
tokenizer_lem is_char normalize pred norm text last fits bound =
    Delivers-defined is_char normalize pred norm last _ _ fits (
      Rest-Delivers pred norm (tokens pred norm [] 0 0 (text ++ ghost pred)) _
        (inr (refl, refl, omega arith)))

-- The predicate is false of '\xff'.
pub char_tokenizer-tokens :
    (is_char : CharFunction Bool) (normalize : CharFunction ℕ) (pred : ℕ → Bool) (norm : ℕ → ℕ)
    (text : List ℕ)
    → Fits is_char normalize pred norm 255
    → All (Fits is_char normalize pred norm) text
    → pred 255 ≡ false
    → length text + 1 < 2 ^ 64
    → Delivers
        (char_tokenizer is_char normalize)
        (new_tokenizer (record { chars = text; eof = false }))
        (tokens pred norm [] 0 0 text)
char_tokenizer-tokens is_char normalize pred norm text last fits no_char bound =
    rw (no_char, append-nil) at (tokenizer_lem is_char normalize pred norm text last fits bound)
