-- ===== src/Io/RoundTrip/Fixed.antt =====
-- `writeInt32` and `readInt32`, `writeInt64` and `readInt64`.
use native.Mathlib.Nat.{mod-eq_of_lt}
use lucanthrope.Base.{
  ℕ, ◌+◌, ◌*◌, ◌/◌, ◌%◌, ◌^◌, ◌≤◌, ◌<◌, bit_or, length, ltb, ◌≡◌, ◌∙◌, refl, Bool, true, List, [],
  ◌++◌, arith,
}
use lucanthrope.Base.Bits.{bit_or_shifted}
use lucanthrope.Exception.{ok, Throws, index_corruption_exception}
use lucanthrope.Io.IndexInput.{InputImpl, int32_value, int64_value, read_int32, read_int64}
use lucanthrope.Io.IndexInput.Source.{IsSource}
use lucanthrope.Io.IndexInput.Reads.{read_prefix, read_short}
use lucanthrope.Io.Encode.{int32_buf, int64_buf}

-- Four bytes of a word of `m` values.
pub or_four :
    (m a b c d : ℕ)
    → a < 256
    → b < 256
    → c < 256
    → d < 256
    → 2 ^ 32 ≤ m
    → bit_or (bit_or (bit_or (a * 2 ^ 0 % m) (b * 2 ^ 8 % m)) (c * 2 ^ 16 % m)) (d * 2 ^ 24 % m)
      ≡ a + b * 2 ^ 8 + c * 2 ^ 16 + d * 2 ^ 24
or_four m a b c d ha hb hc hd hm =
    rw
      (
        first,
        bit_or_shifted 8 m a b (omega arith) (omega arith),
        bit_or_shifted 16 m (a + b * 2 ^ 8) c (omega arith) (omega arith),
      )
      (bit_or_shifted 24 m (a + b * 2 ^ 8 + c * 2 ^ 16) d (omega arith) (omega arith))
  where
    first : a * 2 ^ 0 % m ≡ a
    first = let e : a * 2 ^ 0 ≡ a = omega arith in rw e (mod-eq_of_lt (omega arith))

int32_value-int32_buf : (num : ℕ) → num < 2 ^ 32 → int32_value (int32_buf num) ≡ num
unfolding int32_value int32_buf
int32_value-int32_buf num h =
    or_four (2 ^ 32) (num / 1 % 256) (num / 2 ^ 8 % 256) (num / 2 ^ 16 % 256) (num / 2 ^ 24 % 256)
      (omega arith) (omega arith) (omega arith) (omega arith) (omega arith)
    ∙ omega arith

-- Four more bytes above a word below `2 ^ 32`.
pub or_high :
    (l a b c d : ℕ)
    → l < 2 ^ 32
    → a < 256
    → b < 256
    → c < 256
    → d < 256
    → bit_or
        (bit_or
          (bit_or (bit_or l (a * 2 ^ 32 % 2 ^ 64)) (b * 2 ^ 40 % 2 ^ 64))
          (c * 2 ^ 48 % 2 ^ 64))
        (d * 2 ^ 56 % 2 ^ 64)
      ≡ l + a * 2 ^ 32 + b * 2 ^ 40 + c * 2 ^ 48 + d * 2 ^ 56
or_high l a b c d hl ha hb hc hd =
    rw
      (
        bit_or_shifted 32 (2 ^ 64) l a hl (omega arith),
        bit_or_shifted 40 (2 ^ 64) (l + a * 2 ^ 32) b (omega arith) (omega arith),
        bit_or_shifted 48 (2 ^ 64) (l + a * 2 ^ 32 + b * 2 ^ 40) c (omega arith) (omega arith),
      )
      (bit_or_shifted 56 (2 ^ 64) (l + a * 2 ^ 32 + b * 2 ^ 40 + c * 2 ^ 48) d (omega arith)
        (omega arith))

-- The lowest 32 bits, and the bytes above them.
int64_low :
    (num : ℕ)
    → num / 1 % 256
        + num / 2 ^ 8 % 256 * 2 ^ 8
        + num / 2 ^ 16 % 256 * 2 ^ 16
        + num / 2 ^ 24 % 256 * 2 ^ 24
      ≡ num % 2 ^ 32
int64_low num = omega arith

int64_bytes :
    (num : ℕ)
    → num < 2 ^ 64
    → num % 2 ^ 32
        + num / 2 ^ 32 % 256 * 2 ^ 32
        + num / 2 ^ 40 % 256 * 2 ^ 40
        + num / 2 ^ 48 % 256 * 2 ^ 48
        + num / 2 ^ 56 % 256 * 2 ^ 56
      ≡ num
int64_bytes num h = omega arith

int64_value-int64_buf : (num : ℕ) → num < 2 ^ 64 → int64_value (int64_buf num) ≡ num
unfolding int64_value int64_buf
int64_value-int64_buf num h =
    rw
      (
        or_four (2 ^ 64) (num / 1 % 256) (num / 2 ^ 8 % 256) (num / 2 ^ 16 % 256)
            (num / 2 ^ 24 % 256) (omega arith) (omega arith) (omega arith) (omega arith)
            (omega arith),
        int64_low num,
      )
      (or_high (num % 2 ^ 32) (num / 2 ^ 32 % 256) (num / 2 ^ 40 % 256) (num / 2 ^ 48 % 256)
          (num / 2 ^ 56 % 256) (omega arith) (omega arith) (omega arith) (omega arith) (omega arith)
        ∙ int64_bytes num h)

module _ {S : Type 0} {impl : InputImpl S} (src : IsSource impl) where
  open src use {Ahead}

  -- With the four bytes of `writeInt32(num)` ahead, `num` below 2 ^ 32, `readInt32` returns
  -- `num` and consumes just these.
  pub read_int32-int32_buf :
      (num : ℕ) (ends : Bool) (s : S) (rest : List ℕ)
      → num < 2 ^ 32
      → Ahead ends s (int32_buf num ++ rest)
      → (s' : S) × (read_int32 ⦃impl = impl⦄ s ≡ ok num s') × Ahead ends s' rest
  unfolding read_int32
  read_int32-int32_buf num ends s rest h a =
      let (s1, e1, a1) = read_prefix src (int32_buf num) ends s rest a in
      (s1, unfold int32_buf in ground (arith, e1, int32_value-int32_buf num h), a1)

  -- With the eight bytes of `writeInt64(num)` ahead, `num` below 2 ^ 64, `readInt64` returns
  -- `num` and consumes just these.
  pub read_int64-int64_buf :
      (num : ℕ) (ends : Bool) (s : S) (rest : List ℕ)
      → num < 2 ^ 64
      → Ahead ends s (int64_buf num ++ rest)
      → (s' : S) × (read_int64 ⦃impl = impl⦄ s ≡ ok num s') × Ahead ends s' rest
  unfolding read_int64
  read_int64-int64_buf num ends s rest h a =
      let (s1, e1, a1) = read_prefix src (int64_buf num) ends s rest a in
      (s1, unfold int64_buf in ground (arith, e1, int64_value-int64_buf num h), a1)

  -- With fewer than four bytes left `readInt32` throws IndexCorruptionException, and the source is
  -- read to its end.
  pub read_int32_truncated :
      (s : S) (xs : List ℕ)
      → Ahead true s xs
      → length xs < 4
      → Throws (read_int32 ⦃impl = impl⦄ s) index_corruption_exception (λ s'. Ahead true s' [])
  unfolding read_int32
  read_int32_truncated s xs a h =
      let (s1, e1, a1) = read_short src 4 s xs a (omega arith) in
      let short : ltb (length xs) 4 ≡ true = ground arith in rw (e1, short) (refl, a1)

  -- With fewer than eight bytes left `readInt64` throws IndexCorruptionException, and the source is
  -- read to its end.
  pub read_int64_truncated :
      (s : S) (xs : List ℕ)
      → Ahead true s xs
      → length xs < 8
      → Throws (read_int64 ⦃impl = impl⦄ s) index_corruption_exception (λ s'. Ahead true s' [])
  unfolding read_int64
  read_int64_truncated s xs a h =
      let (s1, e1, a1) = read_short src 8 s xs a (omega arith) in
      let short : ltb (length xs) 8 ≡ true = ground arith in rw (e1, short) (refl, a1)
