-- ===== src/Io/Encode/Groups.antt =====
-- What `writeVarint32` and `writeVarint64` write, as groups of seven bits.
use mathlib.Core.Logic.{dif_pos, dif_neg}
use mathlib.Core.WellFounded.{Acc}
use native.Mathlib.Bridge.{le_prop}
use lucanthrope.Base.{
  ℕ, zero, suc, ◌+◌, ◌/◌, ◌%◌, ◌^◌, ◌≤◌, ◌<◌, length, ltb, ◌≡◌, ◌⊎◌, ap, true, false, List, [], ◌∷◌,
  All, dec_le, if◌then◌else◌, arith,
}
use lucanthrope.Base.Bits.{bit_or-top_bit}
use lucanthrope.Io.Encode.{shrinks, varint32_buf, varint64_loop, varint64_buf}

-- The groups of `num`, lowest first, at most `k` of them with the top bit set before the last.
unfoldable pub groups : ℕ → ℕ → List ℕ
groups zero num = num ∷ []
groups (suc k) num =
    let rest = groups k (num / 128) in if ltb num 128 then num ∷ [] else (num % 128 + 128) ∷ rest

varint64_loop-groups :
    (k num : ℕ) (w : Acc ◌<◌ num) → num < 128 ^ suc k → varint64_loop num w ≡ groups k num
unfolding varint64_loop groups
varint64_loop-groups zero num (Acc.intro _ smaller) h =
    let small : num % 256 ≡ num = omega arith in
    elim (dec_le 128 num) [ yes more ↦ absurd (omega arith) | no less ↦ rw (dif_neg _ less, small) ]
varint64_loop-groups (suc k) num (Acc.intro _ smaller) h = elim (dec_le 128 num) [
  | yes more ↦
      let test : ltb num 128 ≡ false = ground arith in
      rw (dif_pos _ le_prop more, bit_or-top_bit num, test)
        (ap (◌∷◌ (num % 128 + 128))
          (varint64_loop-groups k (num / 128) (smaller _ (shrinks num more)) (omega arith)))
  | no less ↦
      let small : num % 256 ≡ num = omega arith in
      let test : ltb num 128 ≡ true = ground arith in rw (dif_neg _ less, small, test)
]

-- `writeVarint64` writes the groups of its argument.
pub varint64_buf-groups : (num : ℕ) → num < 2 ^ 64 → varint64_buf num ≡ groups 9 num
unfolding varint64_buf
varint64_buf-groups num h = varint64_loop-groups 9 num _ (omega arith)

-- `writeVarint32` writes the groups of its argument below 2 ^ 21 and from 2 ^ 28 on.
pub varint32_buf-groups :
    (num : ℕ) → num < 2 ^ 32 → (num < 2 ^ 21) ⊎ (2 ^ 28 ≤ num) → varint32_buf num ≡ groups 4 num
unfolding varint32_buf groups
varint32_buf-groups num h range = ground (
  arith,
  bit_or-top_bit num,
  bit_or-top_bit (num / 2 ^ 7),
  bit_or-top_bit (num / 2 ^ 14),
  bit_or-top_bit (num / 2 ^ 21),
)

-- Between, it writes the groups of `num >> 7`.
pub varint32_buf-gap :
    (num : ℕ) → 2 ^ 21 ≤ num → num < 2 ^ 28 → varint32_buf num ≡ groups 4 (num / 128)
unfolding varint32_buf groups
varint32_buf-gap num lo hi =
    ground (arith, bit_or-top_bit (num / 2 ^ 7), bit_or-top_bit (num / 2 ^ 14))

pub length-groups : (k num : ℕ) → (1 ≤ length (groups k num)) × (length (groups k num) ≤ k + 1)
unfolding groups
length-groups zero num = omega arith
length-groups (suc k) num = ground (arith, length-groups k (num / 128))

pub groups-bytes : (k num : ℕ) → num < 128 ^ suc k → All (λ b. b < 256) (groups k num)
unfolding groups
groups-bytes zero num h = omega arith
groups-bytes (suc k) num h = ground (arith, groups-bytes k (num / 128) (omega arith))
