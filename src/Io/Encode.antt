-- ===== src/Io/Encode.antt =====
-- The bytes that the functions of lib/IO/IndexOutput.cpp hand to `write`.
pub mod Groups
pub mod Bounds
use mathlib.Core.Logic.{dite}
use mathlib.Core.WellFounded.{Acc}
use lucanthrope.Base.{
  ℕ, ◌*◌, ◌/◌, ◌%◌, ◌^◌, ◌≤◌, ◌<◌, bit_or, List, [], ◌∷◌, ltb, if◌then◌else◌, arith, lt_wf, dec_le,
}

-- `static_cast<char>(num >> (8 * i))`
abbrev byte_at : ℕ → ℕ → ℕ
byte_at num i = num / 2 ^ (8 * i) % 256

unfoldable pub int32_buf : ℕ → List ℕ
int32_buf num = byte_at num 0 ∷ byte_at num 1 ∷ byte_at num 2 ∷ byte_at num 3 ∷ []

unfoldable pub int64_buf : ℕ → List ℕ
int64_buf num =
    byte_at num 0
    ∷ byte_at num 1
    ∷ byte_at num 2
    ∷ byte_at num 3
    ∷ byte_at num 4
    ∷ byte_at num 5
    ∷ byte_at num 6
    ∷ byte_at num 7
    ∷ []

-- `num | B` as a `uint8_t`, with `B = 128`.
abbrev pub with_top_bit : ℕ → ℕ
with_top_bit num = bit_or num 128 % 256

unfoldable pub varint32_buf : ℕ → List ℕ
varint32_buf num =
    if ltb num (2 ^ 7)
    then num % 256 ∷ []
    else if ltb num (2 ^ 14)
    then with_top_bit num ∷ num / 2 ^ 7 % 256 ∷ []
    else if ltb num (2 ^ 21)
    then with_top_bit num ∷ with_top_bit (num / 2 ^ 7) ∷ num / 2 ^ 14 % 256 ∷ []
    else if ltb num (2 ^ 28)
    then with_top_bit (num / 2 ^ 7) ∷ with_top_bit (num / 2 ^ 14) ∷ num / 2 ^ 21 % 256 ∷ []
    else with_top_bit num
      ∷ with_top_bit (num / 2 ^ 7)
      ∷ with_top_bit (num / 2 ^ 14)
      ∷ with_top_bit (num / 2 ^ 21)
      ∷ num / 2 ^ 28 % 256
      ∷ []

pub shrinks : (num : ℕ) → 128 ≤ num → num / 128 < num
shrinks num h = omega arith

-- `while (num >= B) { *(ptr++) = num | B; num >>= 7; } *(ptr++) = num`
pub varint64_loop : (num : ℕ) → Acc ◌<◌ num → List ℕ
varint64_loop num (Acc.intro _ smaller) =
    dite (dec_le 128 num)
      (λ more. with_top_bit num ∷ varint64_loop (num / 128) (smaller _ (shrinks num more)))
      (λ _. num % 256 ∷ [])

unfoldable pub varint64_buf : ℕ → List ℕ
varint64_buf num = varint64_loop num (lt_wf.apply num)
