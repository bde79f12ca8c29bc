-- ===== src/Io/RoundTrip/Varint.antt =====
-- `writeVarint32` and `readVarint32`, `writeVarint64` and `readVarint64`.
use native.Mathlib.Nat.{div-add-mod}
use native.Mathlib.Numerals.{towards_suc}
use lucanthrope.Base.{
  ℕ, zero, suc, ◌+◌, ◌*◌, ◌/◌, ◌%◌, ◌^◌, ◌≤◌, ◌<◌, bit_and, ◌==◌, ◌≡◌, ap, ◌∙◌, Bool, true, ◌≢◌,
  ◌⊎◌, false, dec_lt, List, [], ◌∷◌, ◌++◌, arith,
}
use lucanthrope.Base.Bits.{bit_or_shifted, bit_and-low_bits, bit_and-top_bit}
use lucanthrope.Exception.{Action, ok}
use lucanthrope.Io.IndexInput.{InputImpl, add_group, varint_loop, read_varint32, read_varint64}
use lucanthrope.Io.IndexInput.Source.{IsSource, eof-Ahead, read_byte-Ahead}
use lucanthrope.Io.Encode.{varint32_buf, varint64_buf}
use lucanthrope.Io.Encode.Groups.{
  groups, varint64_buf-groups, varint32_buf-groups, varint32_buf-gap,
}

groups_small : (k num : ℕ) → num < 128 → groups (suc k) num ≡ num ∷ []
unfolding groups
groups_small k num h = ground arith

groups_large :
    (k num : ℕ) → ¬ (num < 128) → groups (suc k) num ≡ (num % 128 + 128) ∷ groups k (num / 128)
unfolding groups
groups_large k num h = ground arith

-- The position of the next group.
shift_group : (d : ℕ) → 2 ^ (7 * (d + 1)) ≡ 2 ^ (7 * d) * 128
shift_group d =
    let e : 7 * (d + 1) ≡ 7 * d + 7 = omega arith in rw e (simp towards_suc (omega arith))

-- A byte whose group lies above the bits of `ret` and fits into the word adds its group.
add_group-fits :
    (width ret byte d : ℕ)
    → byte < 256
    → ret < 2 ^ (7 * d)
    → byte % 128 * 2 ^ (7 * d) < 2 ^ width
    → add_group width ret byte d ≡ ret + byte % 128 * 2 ^ (7 * d)
add_group-fits width ret byte d hb hr fits =
    rw (bit_and-low_bits byte hb) (bit_or_shifted (7 * d) (2 ^ width) ret (byte % 128) hr fits)

-- The lowest group of `num` and the rest, from bit `7 * d` on.
split_group :
    (ret num d : ℕ)
    → ret + num * 2 ^ (7 * d) ≡ ret + num % 128 * 2 ^ (7 * d) + num / 128 * 2 ^ (7 * (d + 1))
split_group ret num d = omega (
  arith,
  ap (λ (t : ℕ). t * 2 ^ (7 * d)) (div-add-mod num 128),
  ap (λ (t : ℕ). num / 128 * t) (shift_group d),
)

inner_bound :
    (ret num d : ℕ) → ret < 2 ^ (7 * d) → ret + num % 128 * 2 ^ (7 * d) < 2 ^ (7 * (d + 1))
inner_bound ret num d h = rw shift_group (group_bound ret (num % 128) (2 ^ (7 * d)) h (omega arith))
  where
    group_bound : (r g p : ℕ) → r < p → g ≤ 127 → r + g * p < p * 128
    group_bound r g p hr hg = grind arith

add_group-inner :
    (width ret num d : ℕ)
    → ret < 2 ^ (7 * d)
    → ret + num * 2 ^ (7 * d) < 2 ^ width
    → add_group width ret (num % 128 + 128) d ≡ ret + num % 128 * 2 ^ (7 * d)
add_group-inner width ret num d hr fits =
    let group : (num % 128 + 128) % 128 ≡ num % 128 = omega arith in
    add_group-fits width ret (num % 128 + 128) d (omega arith) hr
      (rw group (omega (arith, split_group ret num d)))
    ∙ rw group

module _ {S : Type 0} {impl : InputImpl S} (src : IsSource impl) where
  open src use {Ahead}

  -- A byte with the top bit set is followed by another round.
  varint_loop_more :
      (width rounds d ret byte : ℕ) (fail : Action S ℕ) (ends : Bool) (s : S) (xs : List ℕ)
      → 128 ≤ byte
      → byte < 256
      → Ahead ends s (byte ∷ xs)
      → (s' : S) × (varint_loop ⦃impl = impl⦄ width (suc rounds) d ret fail s
          ≡ varint_loop ⦃impl = impl⦄ width rounds (d + 1) (add_group width ret byte d) fail s')
        × Ahead ends s' xs
  unfolding varint_loop
  varint_loop_more width rounds d ret byte fail ends s xs lo hi a =
      let (s1, e1, a1, _) = eof-Ahead src ends s byte xs a in
      let (s2, e2, a2) = read_byte-Ahead src ends s1 byte xs a1 in
      let more : (bit_and byte 128 == 0) ≡ false = ground (arith, bit_and-top_bit byte hi) in
      (s2, rw (e1, e2, more), a2)

  varint_loop_last :
      (width rounds d ret byte : ℕ) (fail : Action S ℕ) (ends : Bool) (s : S) (xs : List ℕ)
      → byte < 128
      → Ahead ends s (byte ∷ xs)
      → (s' : S) × (varint_loop ⦃impl = impl⦄ width (suc rounds) d ret fail s
          ≡ ok (add_group width ret byte d) s')
        × Ahead ends s' xs
  unfolding varint_loop
  varint_loop_last width rounds d ret byte fail ends s xs hi a =
      let (s1, e1, a1, _) = eof-Ahead src ends s byte xs a in
      let (s2, e2, a2) = read_byte-Ahead src ends s1 byte xs a1 in
      let last : (bit_and byte 128 == 0) ≡ true =
        ground (arith, bit_and-top_bit byte (omega arith)) in
      (s2, rw (e1, e2, last), a2)

  -- A group below 128 is the last, whatever the rounds left.
  last_group :
      (width k num d ret : ℕ) (fail : Action S ℕ) (ends : Bool) (s : S) (rest : List ℕ)
      → num < 128
      → ret < 2 ^ (7 * d)
      → ret + num * 2 ^ (7 * d) < 2 ^ width
      → Ahead ends s (num ∷ rest)
      → (s' : S) × (varint_loop ⦃impl = impl⦄ width (suc k) d ret fail s
          ≡ ok (ret + num * 2 ^ (7 * d)) s')
        × Ahead ends s' rest
  last_group width k num d ret fail ends s rest h hr fits a =
      let (s1, e1, a1) = varint_loop_last width k d ret num fail ends s rest h a in
      let group : num % 128 ≡ num = omega arith in
      (
        s1,
        e1
            ∙ ap (λ v. ok v s1)
                (add_group-fits width ret num d (omega arith) hr (rw group (omega arith))
                  ∙ rw group),
        a1,
      )

  -- The loop reads the groups of `num` onto the bits that it has.
  varint_loop-groups :
      (width k num d ret : ℕ) (fail : Action S ℕ) (ends : Bool) (s : S) (rest : List ℕ)
      → num < 128 ^ suc k
      → ret < 2 ^ (7 * d)
      → ret + num * 2 ^ (7 * d) < 2 ^ width
      → Ahead ends s (groups k num ++ rest)
      → (s' : S) × (varint_loop ⦃impl = impl⦄ width (suc k) d ret fail s
          ≡ ok (ret + num * 2 ^ (7 * d)) s')
        × Ahead ends s' rest
  varint_loop-groups width zero num d ret fail ends s rest hn hr fits a =
      last_group width zero num d ret fail ends s rest (omega arith) hr fits (unfold groups in a)
  varint_loop-groups width (suc k) num d ret fail ends s rest hn hr fits a = elim (dec_lt num 128) [
    | yes less ↦
        last_group width (suc k) num d ret fail ends s rest less hr fits
          (rw (groups_small k num less) at a)
    | no more ↦
        let byte : ℕ = num % 128 + 128 in
        let (s1, e1, a1) =
          varint_loop_more width (suc k) d ret byte fail ends s (groups k (num / 128) ++ rest)
            (omega arith) (omega arith) (rw (groups_large k num more) at a) in
        let added = add_group-inner width ret num d hr fits in
        let (s2, e2, a2) =
          varint_loop-groups width k (num / 128) (d + 1) (ret + num % 128 * 2 ^ (7 * d)) fail ends
            s1 rest (omega arith) (inner_bound ret num d hr) (rw (← split_group ret num d) fits)
            a1 in
        (s2, e1 ∙ rw (added, split_group ret num d) e2, a2)
  ]

  -- With the bytes of `writeVarint64(num)` ahead, `num` below 2 ^ 64, `readVarint64` returns
  -- `num` and consumes just these.
  pub read_varint64-varint64_buf :
      (num : ℕ) (ends : Bool) (s : S) (rest : List ℕ)
      → num < 2 ^ 64
      → Ahead ends s (varint64_buf num ++ rest)
      → (s' : S) × (read_varint64 ⦃impl = impl⦄ s ≡ ok num s') × Ahead ends s' rest
  unfolding read_varint64
  read_varint64-varint64_buf num ends s rest h a =
      let (s1, e1, a1) =
        varint_loop-groups 64 9 num 0 0 _ ends s rest (omega arith) (omega arith) (omega arith)
          (rw (varint64_buf-groups num h) at a) in
      (s1, e1 ∙ ap (λ v. ok v s1) (omega arith), a1)

  read_varint32-groups :
      (num : ℕ) (ends : Bool) (s : S) (rest : List ℕ)
      → num < 2 ^ 32
      → Ahead ends s (groups 4 num ++ rest)
      → (s' : S) × (read_varint32 ⦃impl = impl⦄ s ≡ ok num s') × Ahead ends s' rest
  unfolding read_varint32
  read_varint32-groups num ends s rest h a =
      let (s1, e1, a1) =
        varint_loop-groups 32 4 num 0 0 _ ends s rest (omega arith) (omega arith) (omega arith) a in
      (s1, e1 ∙ ap (λ v. ok v s1) (omega arith), a1)

  -- With the bytes of `writeVarint32(num)` ahead, `readVarint32` returns `num` and consumes just
  -- these, if `num` is below 2 ^ 21, or at least 2 ^ 28 and below 2 ^ 32.
  pub read_varint32-varint32_buf :
      (num : ℕ) (ends : Bool) (s : S) (rest : List ℕ)
      → num < 2 ^ 32
      → (num < 2 ^ 21) ⊎ (2 ^ 28 ≤ num)
      → Ahead ends s (varint32_buf num ++ rest)
      → (s' : S) × (read_varint32 ⦃impl = impl⦄ s ≡ ok num s') × Ahead ends s' rest
  read_varint32-varint32_buf num ends s rest h range a =
      read_varint32-groups num ends s rest h (rw (varint32_buf-groups num h range) at a)

  -- With the bytes of `writeVarint32(num)` ahead, for `num` from 2 ^ 21 to below 2 ^ 28,
  -- `readVarint32` returns `num / 128`, which is not `num`.
  pub read_varint32_gap :
      (num : ℕ) (ends : Bool) (s : S) (rest : List ℕ)
      → 2 ^ 21 ≤ num
      → num < 2 ^ 28
      → Ahead ends s (varint32_buf num ++ rest)
      → (s' : S) × (read_varint32 ⦃impl = impl⦄ s ≡ ok (num / 128) s')
        × Ahead ends s' rest
        × (num / 128 ≢ num)
  read_varint32_gap num ends s rest lo hi a =
      let (s1, e1, a1) =
        read_varint32-groups (num / 128) ends s rest (omega arith)
          (rw (varint32_buf-gap num lo hi) at a) in
      (s1, e1, a1, omega arith)
