-- ===== src/Io/Decoder/Groups.antt =====
-- The groups of seven bits that the loop of `readVarint32` and `readVarint64` adds to a word, also
-- where their upper bits do not fit.
use native.Mathlib.Nat.{
  mul_assoc, zero-add, mul-one, pow-zero, mod-le, mod-add-mod, mod-eq_of_lt, mod-lt,
  add-mul-mod_self_left, div-add-mod, pow-suc,
}
use lucanthrope.Base.{
  ℕ, zero, suc, ◌+◌, ◌*◌, ◌-◌, ◌/◌, ◌%◌, ◌^◌, ◌<◌, ◌≤◌, ◌≡◌, ◌∙◌, sym, ap, arith,
}
use lucanthrope.Base.Bits.{bit_or_disjoint, bit_and-low_bits}
use lucanthrope.Io.IndexInput.{add_group}

pow-add : (b m n : ℕ) → b ^ (m + n) ≡ b ^ m * b ^ n
pow-add b m zero = let e : m + 0 ≡ m = omega arith in simp (e, pow-zero, mul-one)
pow-add b m (suc n) =
    let more : m + suc n ≡ suc (m + n) = omega arith in
    let e : b ^ (m + suc n) ≡ b ^ (m + n) * b = rw more (pow-suc b (m + n)) in
    let f : b ^ suc n ≡ b ^ n * b = pow-suc b n in
    e
    ∙ ap (λ (t : ℕ). t * b) (pow-add b m n)
    ∙ mul_assoc (b ^ m) (b ^ n) b
    ∙ ap (λ (t : ℕ). b ^ m * t) (sym f)

below : (r g p q : ℕ) → r < p → g < q → r + g * p < p * q
below r g p q h k = let e : g + 1 ≤ q = omega arith in grind arith

split : (r g p q : ℕ) → r + g * p ≡ r + g % q * p + p * q * (g / q)
split r g p q = let e : q * (g / q) + g % q ≡ g = div-add-mod g q in grind (arith, e)

-- With `r` below `p`, in a word of `p * q` values.
wrapped : (r g p q : ℕ) → r < p → 0 < q → (r + g * p) % (p * q) ≡ r + g % q * p
wrapped r g p q h k =
    rw (split r g p q, add-mul-mod_self_left (r + g % q * p) (p * q) (g / q))
      (mod-eq_of_lt (below r (g % q) p q h (mod-lt g k)))

two_pow-pos : (n : ℕ) → 0 < 2 ^ n
two_pow-pos zero = omega arith
two_pow-pos (suc n) = rw pow-suc (omega (arith, two_pow-pos n))

power_split : (width d : ℕ) → 7 * d ≤ width → 2 ^ width ≡ 2 ^ (7 * d) * 2 ^ (width - 7 * d)
power_split width d h =
    let e : width ≡ 7 * d + (width - 7 * d) = omega arith in
    ap (◌^◌ 2) e ∙ pow-add 2 (7 * d) (width - 7 * d)

-- The group of a byte is added at its place, modulo the word.
pub add_group-wrapped :
    (width ret byte d : ℕ)
    → byte < 256
    → ret < 2 ^ (7 * d)
    → 7 * d ≤ width
    → add_group width ret byte d ≡ (ret + byte % 128 * 2 ^ (7 * d)) % 2 ^ width
add_group-wrapped width ret byte d hb hr fits =
    let p : ℕ = 2 ^ (7 * d) in
    let q : ℕ = 2 ^ (width - 7 * d) in
    let some : 0 < q = two_pow-pos (width - 7 * d) in
    let group : byte % 128 * p % (p * q) ≡ byte % 128 % q * p =
      simp zero-add at (wrapped 0 (byte % 128) p q (omega arith) some) in
    rw (power_split width d fits, bit_and-low_bits byte hb, group)
      (bit_or_disjoint (7 * d) ret (byte % 128 % q) hr ∙ sym (wrapped ret (byte % 128) p q hr some))

shift_group : (d : ℕ) → 2 ^ (7 * (d + 1)) ≡ 2 ^ (7 * d) * 128
shift_group d = let e : 7 * (d + 1) ≡ 7 * d + 7 = omega arith in rw e (pow-add 2 (7 * d) 7)

pub add_group-below :
    (width ret byte d : ℕ)
    → byte < 256
    → ret < 2 ^ (7 * d)
    → 7 * d ≤ width
    → add_group width ret byte d < 2 ^ (7 * (d + 1))
add_group-below width ret byte d hb hr fits =
    let p : ℕ = 2 ^ (7 * d) in
    let less : ret + byte % 128 * p < p * 128 = below ret (byte % 128) p 128 hr (omega arith) in
    rw (add_group-wrapped width ret byte d hb hr fits, shift_group)
      (omega (arith, less, mod-le (ret + byte % 128 * p) (2 ^ width)))

-- The groups behind this one are added to what it leaves.
pub next_group :
    (width ret byte n d : ℕ)
    → byte < 256
    → ret < 2 ^ (7 * d)
    → 7 * d ≤ width
    → (add_group width ret byte d + n * 2 ^ (7 * (d + 1))) % 2 ^ width
      ≡ (ret + (byte % 128 + 128 * n) * 2 ^ (7 * d)) % 2 ^ width
next_group width ret byte n d hb hr fits =
    let p : ℕ = 2 ^ (7 * d) in
    let same : ret + byte % 128 * p + n * (p * 128) ≡ ret + (byte % 128 + 128 * n) * p =
      grind arith in
    rw (add_group-wrapped width ret byte d hb hr fits, shift_group)
      (mod-add-mod (ret + byte % 128 * p) (2 ^ width) (n * (p * 128))
        ∙ ap (λ (t : ℕ). t % 2 ^ width) same)
