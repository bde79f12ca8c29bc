-- ===== src/Base/Bits.antt =====
-- The bit operations that the integer encodings use, as arithmetic.
use Prim.Native.Nat.{
  ℕ, zero, suc, ◌+◌, ◌*◌, ◌/◌, ◌%◌, ◌^◌, ◌≤◌, ◌<◌, max, bit_and, bit_or, digits, bit_or-bitwise,
}
use mathlib.Core.Path.{◌≡◌, refl, ap}
use mathlib.Core.Bool.{Bool, true, false}
use native.Mathlib.Omega.{arith}
use lucanthrope.Base.Tests.{◌==◌, ==_iff, if◌then◌else◌}
use native.Mathlib.Nat.{pow-suc, mod-eq_of_lt}

-- `test` holds of all numbers under a bound, which is found by running it.
every : (ℕ → Bool) → ℕ → Bool
every test zero = true
every test (suc top) = if test top then every test top else false

every-at : (test : ℕ → Bool) (top k : ℕ) → k < top → every test top ≡ true → test k ≡ true
unfolding every
every-at test zero k under run = absurd (omega (arith, under))
every-at test (suc top) k under run = ground (arith, every-at test top k)

low_bits : ℕ → Bool
low_bits b = bit_and b 0x7f == b % 128

low_bits-every : every low_bits 256 ≡ true
unfolding every low_bits
low_bits-every = refl

-- The seven low bits of a byte.
pub bit_and-low_bits : (b : ℕ) → b < 256 → bit_and b 0x7f ≡ b % 128
unfolding low_bits
bit_and-low_bits b byte = (==_iff _ _).0 (every-at low_bits 256 b byte low_bits-every)

top_bit : ℕ → Bool
top_bit b = bit_and b 128 == b / 128 * 128

top_bit-every : every top_bit 256 ≡ true
unfolding every top_bit
top_bit-every = refl

-- The continuation bit of a byte.
pub bit_and-top_bit : (b : ℕ) → b < 256 → bit_and b 128 ≡ b / 128 * 128
unfolding top_bit
bit_and-top_bit b byte = (==_iff _ _).0 (every-at top_bit 256 b byte top_bit-every)

-- What `bit_or` computes with `fuel` for the digits of its first argument.
abbrev or_with : (x y fuel : ℕ) → ℕ
or_with x y fuel = digits (λ rest. rest) max fuel x y

-- Any fuel that is enough gives the same.
or_with-enough : (x y u v : ℕ) → x ≤ v → x ≤ u → or_with x y u ≡ or_with x y v
or_with-enough (suc x) y zero v lv lu = absurd (omega (arith, lu))
or_with-enough (suc x) y (suc u) zero lv lu = absurd (omega (arith, lv))
or_with-enough (suc x) y (suc u) (suc v) lv lu =
    let half = or_with-enough (suc x / 2) (y / 2) u v (omega (arith, lv)) (omega (arith, lu)) in
    omega (arith, half)
or_with-enough zero y (suc u) (suc v) lv lu = refl
or_with-enough zero y (suc u) zero lv lu = refl
or_with-enough zero y zero (suc v) lv lu = refl
or_with-enough zero y zero zero lv lu = refl

pub zero-bit_or : (b : ℕ) → bit_or 0 b ≡ b
zero-bit_or b = bit_or-bitwise 0 b

-- The lowest bit apart from the others.
bit_or_step : (x y : ℕ) → bit_or x y ≡ bit_or (x / 2) (y / 2) * 2 + max (x % 2) (y % 2)
bit_or_step zero y = let rest = zero-bit_or (y / 2) in omega (arith, rest, zero-bit_or y)
bit_or_step (suc x) y =
    let half : ℕ = suc x / 2 in
    let same = or_with-enough half (y / 2) x half (omega arith) (omega arith) in
    omega (arith, same, bit_or-bitwise half (y / 2), bit_or-bitwise (suc x) y)

bit_or-zero_below : (top a : ℕ) → a < top → bit_or a 0 ≡ a
bit_or-zero_below zero a under = absurd (omega (arith, under))
bit_or-zero_below (suc top) zero under = zero-bit_or 0
bit_or-zero_below (suc top) (suc a) under =
    let half = bit_or-zero_below top (suc a / 2) (omega (arith, under)) in
    omega (arith, half, bit_or_step (suc a) 0)

pub bit_or-zero : (a : ℕ) → bit_or a 0 ≡ a
bit_or-zero a = bit_or-zero_below (suc a) a (omega arith)

halve : (c : ℕ) → c * 2 / 2 ≡ c
halve c = omega arith

low : (a p : ℕ) → a < p * 2 → a / 2 < p
low a p h = omega arith

-- Bits below position `k` and bits from there on do not meet, so `|` adds them.
pub bit_or_disjoint : (k a b : ℕ) → a < 2 ^ k → bit_or a (b * 2 ^ k) ≡ a + b * 2 ^ k
bit_or_disjoint zero zero b h = omega (arith, zero-bit_or (b * 2 ^ 0))
bit_or_disjoint zero (suc a) b h = absurd (omega arith)
bit_or_disjoint (suc k) a b h =
    let double : b * 2 ^ suc k ≡ b * 2 ^ k * 2 = rw pow-suc (grind arith) in
    rw double (
      omega (
        arith,
        bit_or_step a (b * 2 ^ k * 2),
        ap (bit_or (a / 2)) (halve (b * 2 ^ k)),
        bit_or_disjoint k (a / 2) b (low a (2 ^ k) (rw pow-suc at h)),
      ))

-- `|` stays in a word.
pub bit_or_lt : (k a b : ℕ) → a < 2 ^ k → b < 2 ^ k → bit_or a b < 2 ^ k
bit_or_lt zero zero b h k = omega (arith, zero-bit_or b)
bit_or_lt zero (suc a) b h k = absurd (omega arith)
bit_or_lt (suc n) a b h k =
    let half =
      bit_or_lt n (a / 2) (b / 2) (low a (2 ^ n) (rw pow-suc at h))
        (low b (2 ^ n) (rw pow-suc at k)) in
    rw pow-suc (omega (arith, half, bit_or_step a b))

bit_or-one : (a : ℕ) → bit_or a 1 ≡ a / 2 * 2 + 1
bit_or-one a = omega (arith, bit_or_step a 1, bit_or-zero (a / 2))

bit_or-sixteen : (a : ℕ) → bit_or a 16 ≡ a / 32 * 32 + a % 16 + 16
bit_or-sixteen a = omega (
  arith,
  bit_or_step a 16,
  bit_or_step (a / 2) 8,
  bit_or_step (a / 2 / 2) 4,
  bit_or_step (a / 2 / 2 / 2) 2,
  bit_or-one (a / 2 / 2 / 2 / 2),
)

-- `static_cast<uint8_t>(num | 128)`
pub bit_or-top_bit : (a : ℕ) → bit_or a 128 % 256 ≡ a % 128 + 128
bit_or-top_bit a = omega (
  arith,
  bit_or_step a 128,
  bit_or_step (a / 2) 64,
  bit_or_step (a / 2 / 2) 32,
  bit_or-sixteen (a / 2 / 2 / 2),
)

-- The same in a word of `m` values into which the shifted bits fit.
pub bit_or_shifted :
    (k m a b : ℕ) → a < 2 ^ k → b * 2 ^ k < m → bit_or a (b * 2 ^ k % m) ≡ a + b * 2 ^ k
bit_or_shifted k m a b h fits = rw (mod-eq_of_lt fits) (bit_or_disjoint k a b h)
