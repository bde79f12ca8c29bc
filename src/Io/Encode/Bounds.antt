-- ===== src/Io/Encode/Bounds.antt =====
-- How long the encodings of `writeVarint32` and `writeVarint64` are.
use lucanthrope.Base.{
  ℕ, zero, suc, ◌-◌, ◌*◌, ◌/◌, ◌^◌, ◌≤◌, ◌<◌, ◌≡◌, ◌⊎◌, inl, inr, length, ltb, All, Bool-cases,
  arith,
}
use lucanthrope.Io.IndexInput.{max_varint_length32, max_varint_length64}
use lucanthrope.Io.Encode.{varint32_buf, varint64_buf}
use lucanthrope.Io.Encode.Groups.{groups, varint64_buf-groups, length-groups, groups-bytes}

pow_suc : (n : ℕ) → 128 ^ suc n ≡ 128 * 128 ^ n
pow_suc n = omega arith

-- The groups are as few as seven bits each allow.
groups_least :
    (k num : ℕ)
    → num < 128 ^ suc k
    → (num < 128 ^ length (groups k num))
      × ((length (groups k num) ≡ 1) ⊎ (128 ^ (length (groups k num) - 1) ≤ num))
unfolding groups
groups_least zero num h = (h, inl (omega arith))
groups_least (suc k) num h = elim (Bool-cases (ltb num 128)) [
  | inl small ↦ rw small (ground arith, inl (omega arith))
  | inr large ↦
      let (above, below) = groups_least k (num / 128) (omega (arith, pow_suc (suc k))) in
      let n : ℕ = length (groups k (num / 128)) in
      let back : suc n - 1 ≡ n = omega arith in
      rw (large, back)
        (
          omega (arith, pow_suc n),
          inr (elim below [
            | inl one ↦ rw one (ground (arith, large))
            | inr le ↦
                let some = (length-groups k (num / 128)).0 in
                let step : suc (n - 1) ≡ n = omega arith in
                rw (← step) (omega (arith, pow_suc (n - 1)))
          ]),
        )
]

-- `writeVarint64` of a number below 2 ^ 64 writes one byte at least and kMaxVarintLength64 at
-- most, and as few as hold the number at seven bits each; `writeVarint32` of one below 2 ^ 32
-- writes one byte at least and kMaxVarintLength32 at most. All are values of a byte.
pub varint_bounds :
    (num small : ℕ)
    → num < 2 ^ 64
    → small < 2 ^ 32
    → (1 ≤ length (varint64_buf num))
      × (length (varint64_buf num) ≤ max_varint_length64)
      × (num < 128 ^ length (varint64_buf num))
      × ((length (varint64_buf num) ≡ 1) ⊎ (128 ^ (length (varint64_buf num) - 1) ≤ num))
      × All (λ b. b < 256) (varint64_buf num)
      × (1 ≤ length (varint32_buf small))
      × (length (varint32_buf small) ≤ max_varint_length32)
      × All (λ b. b < 256) (varint32_buf small)
varint_bounds num small h hs =
    let (some, most) = length-groups 9 num in
    let (above, least) = groups_least 9 num (omega arith) in
    rw (varint64_buf-groups num h) (
      some,
      omega arith,
      above,
      least,
      groups-bytes 9 num (omega arith),
      unfold varint32_buf in ground arith,
      unfold varint32_buf in ground arith,
      unfold varint32_buf in ground arith,
    )
