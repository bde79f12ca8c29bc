-- ===== src/Analysis/Token/Printing.antt =====
-- Token::toString of include/lucanthrope/analysis/Analysis.h.
use mathlib.Core.Logic.{dite, dif_pos, dif_neg}
use mathlib.Core.WellFounded.{Acc}
use native.Mathlib.Bridge.{le_prop}
use lucanthrope.Base.{
  ℕ, ◌+◌, ◌-◌, ◌*◌, ◌/◌, ◌%◌, ◌^◌, ◌≤◌, ◌<◌, ◌≡◌, refl, sym, ◌↔◌, ap, ◌∙◌, true, false, ◌&&◌, List,
  [], ◌∷◌, ◌++◌, append_assoc, ltb, leb, if◌then◌else◌, dec_le, lt_wf, arith, ◌==◌, Bool-cases, inl,
  inr,
}
use lucanthrope.Analysis.Token.{Token, new_typed_token, bytes_of}

shrinks : (n : ℕ) → 10 ≤ n → n / 10 < n
shrinks n h = omega arith

decimal_loop : (n : ℕ) → Acc ◌<◌ n → List ℕ
decimal_loop n (Acc.intro _ smaller) =
    dite (dec_le 10 n)
      (λ more. decimal_loop (n / 10) (smaller _ (shrinks n more)) ++ ((n % 10 + 48) ∷ []))
      (λ _. (n + 48) ∷ [])

-- `std::to_string` of a `uint64_t`, and of the `int` with this bit pattern.
pub decimal : ℕ → List ℕ
unfolding decimal_loop
decimal n = decimal_loop n (lt_wf.apply n)

pub int_decimal : ℕ → List ℕ
unfolding decimal
int_decimal bits = if ltb bits (2 ^ 31) then decimal bits else 45 ∷ decimal (2 ^ 32 - bits)

abbrev type_text : List ℕ → List ℕ
type_text [] = bytes_of "<no type>"
type_text (c ∷ cs) = c ∷ cs

pub token_to_string : Token → List ℕ
unfolding int_decimal bytes_of
token_to_string t =
    bytes_of "[type: "
    ++ (type_text t.type
        ++ (bytes_of ", "
            ++ (bytes_of "text: "
                ++ (t.term_text
                    ++ (bytes_of ", "
                        ++ (bytes_of "start: "
                            ++ (decimal t.start_pos
                                ++ (bytes_of ", "
                                    ++ (bytes_of "end: "
                                        ++ (int_decimal t.end_pos ++ bytes_of "]"))))))))))

-- Reads the digits that a text begins with onto `n`, and returns what follows them.
read_digits : ℕ → List ℕ → ℕ × List ℕ
read_digits n [] = (n, [])
read_digits n (c ∷ cs) =
    let rest = read_digits (n * 10 + (c - 48)) cs in
    if leb 48 c && leb c 57 then rest else (n, c ∷ cs)

-- A digit is read, and what is no digit is left.
read_digit :
    (n d m : ℕ) (cs : List ℕ)
    → d < 10
    → n * 10 + d ≡ m
    → read_digits n ((d + 48) ∷ cs) ≡ read_digits m cs
unfolding read_digits
read_digit n d m cs h e =
    let digit : (leb 48 (d + 48) && leb (d + 48) 57) ≡ true = ground arith in
    let value : n * 10 + (d + 48 - 48) ≡ m = omega arith in rw (digit, value) refl

read_no_digit :
    (n c : ℕ) (cs : List ℕ) → (leb 48 c && leb c 57) ≡ false → read_digits n (c ∷ cs) ≡ (n, c ∷ cs)
unfolding read_digits
read_no_digit n c cs h = rw h refl

read_digits-decimal_loop :
    (n : ℕ) (w : Acc ◌<◌ n) (rest : List ℕ)
    → read_digits 0 (decimal_loop n w ++ rest) ≡ read_digits n rest
unfolding decimal_loop
read_digits-decimal_loop n (Acc.intro _ smaller) rest = elim (dec_le 10 n) [
  | yes more ↦
      rw (dif_pos _ le_prop more, append_assoc)
        (read_digits-decimal_loop (n / 10) (smaller _ (shrinks n more)) ((n % 10 + 48) ∷ rest)
          ∙ read_digit (n / 10) (n % 10) n rest (omega arith) (omega arith))
  | no less ↦ rw (dif_neg _ less) (read_digit 0 n n rest (omega arith) (omega arith))
]

-- A number begins with a digit.
decimal_loop-head :
    (n : ℕ) (w : Acc ◌<◌ n) (rest : List ℕ)
    → (c : ℕ) × (cs : List ℕ) × (decimal_loop n w ++ rest ≡ c ∷ cs) × (48 ≤ c)
unfolding decimal_loop
decimal_loop-head n (Acc.intro _ smaller) rest = elim (dec_le 10 n) [
  | yes more ↦
      rw (dif_pos _ le_prop more, append_assoc)
        (decimal_loop-head (n / 10) (smaller _ (shrinks n more)) ((n % 10 + 48) ∷ rest))
  | no less ↦ rw (dif_neg _ less) (n + 48, rest, refl, omega arith)
]

-- The bit pattern of the `int` that a text begins with.
read_int : List ℕ → ℕ
read_int [] = 0
read_int (c ∷ cs) = if c == 45 then 2 ^ 32 - (read_digits 0 cs).0 else (read_digits 0 (c ∷ cs)).0

read_int-int_decimal :
    (bits : ℕ) → bits < 2 ^ 32 → read_int (int_decimal bits ++ bytes_of "]") ≡ bits
unfolding int_decimal read_int bytes_of
read_int-int_decimal bits h = elim (Bool-cases (ltb bits (2 ^ 31))) [
  | inl positive ↦
      let (c, cs, e, digit) = decimal_loop-head bits (lt_wf.apply bits) (93 ∷ []) in
      let minus : (c == 45) ≡ false = ground arith in
      rw (positive, e, minus)
        (rw (← e) (
          rw (read_digits-decimal_loop bits (lt_wf.apply bits) (93 ∷ []))
            (rw (read_no_digit bits 93 [] refl) refl)))
  | inr negative ↦
      rw
        (
          negative,
          read_digits-decimal_loop (2 ^ 32 - bits) (lt_wf.apply (2 ^ 32 - bits)) (93 ∷ []),
          read_no_digit (2 ^ 32 - bits) 93 [] refl,
        )
        (omega arith)
]

append_cancel : (xs : List ℕ) {ys zs : List ℕ} → xs ++ ys ≡ xs ++ zs → ys ≡ zs
append_cancel [] e = e
append_cancel (x ∷ xs) e = append_cancel xs (cc)

-- What stands behind the start of a token.
abbrev end_text : ℕ → List ℕ
end_text bits = bytes_of ", " ++ (bytes_of "end: " ++ (int_decimal bits ++ bytes_of "]"))

read_start :
    (start bits : ℕ) → read_digits 0 (decimal start ++ end_text bits) ≡ (start, end_text bits)
unfolding decimal bytes_of
read_start start bits =
    read_digits-decimal_loop start (lt_wf.apply start) (end_text bits)
    ∙ read_no_digit start 44 _ refl

end_text-injective : (b c : ℕ) → b < 2 ^ 32 → c < 2 ^ 32 → end_text b ≡ end_text c → b ≡ c
end_text-injective b c hb hc e =
    let ends = append_cancel (bytes_of "end: ") (append_cancel (bytes_of ", ") e) in
    sym (read_int-int_decimal b hb) ∙ ap read_int ends ∙ read_int-int_decimal c hc

-- Two tokens with one text and one type print alike exactly when they have the same start, and
-- ends that are equal modulo 2 ^ 32: the start is printed in full, the end only as an `int`.
pub token_to_string_lem :
    (text kind : List ℕ) (start end_ start' end' : ℕ)
    → (token_to_string (new_typed_token text start end_ kind)
        ≡ token_to_string (new_typed_token text start' end' kind))
      ↔ ((start ≡ start') × (end_ % 2 ^ 32 ≡ end' % 2 ^ 32))
unfolding token_to_string
token_to_string_lem text kind start end_ start' end' = (
  λ e.
      let tail = append_cancel (bytes_of "start: ") (
        append_cancel (bytes_of ", ") (
          append_cancel text (
            append_cancel (bytes_of "text: ") (
              append_cancel (bytes_of ", ")
                (append_cancel (type_text kind) (append_cancel (bytes_of "[type: ") e)))))) in
      let split =
        sym (read_start start (end_ % 2 ^ 32))
        ∙ ap (read_digits 0) tail
        ∙ read_start start' (end' % 2 ^ 32) in
      (
        ap (λ (p : ℕ × List ℕ). p.0) split,
        end_text-injective (end_ % 2 ^ 32) (end' % 2 ^ 32) (omega arith) (omega arith)
            (ap (λ (p : ℕ × List ℕ). p.1) split),
      ),
  λ h. rw (h.0, h.1) refl,
)
