-- ===== src/Io/IndexInput/Malformed.antt =====
-- `readVarint32` and `readVarint64` on bytes that are no varint.
use lucanthrope.Base.{
  ℕ, zero, suc, ◌+◌, ◌≤◌, ◌<◌, ◌≡◌, refl, bit_and, ◌==◌, true, false, Bool, List, [], ◌∷◌, ◌++◌,
  length, All, arith,
}
use lucanthrope.Base.Bits.{bit_and-top_bit}
use lucanthrope.Exception.{Action, Throws, index_corruption_exception}
use lucanthrope.Io.IndexInput.{
  InputImpl, add_group, varint_loop, read_varint32, read_varint64, max_varint_length32,
  max_varint_length64,
}
use lucanthrope.Io.IndexInput.Source.{IsSource, eof-Ahead, eof-exhausted, read_byte-Ahead}

-- A byte that says that another follows.
abbrev pub Continues : ℕ → Type 0
Continues b = (128 ≤ b) × (b < 256)

module _ {S : Type 0} {impl : InputImpl S} (src : IsSource impl) where
  open src use {Ahead}

  varint_loop_continues :
      (width d ret : ℕ) (fail : Action S ℕ) (ends : Bool) (s : S) (xs rest : List ℕ)
      → ((s' : S)
          → Ahead ends s' rest
          → Throws (fail s') index_corruption_exception (λ t. Ahead ends t rest))
      → All Continues xs
      → Ahead ends s (xs ++ rest)
      → Throws
          (varint_loop ⦃impl = impl⦄ width (length xs) d ret fail s)
          index_corruption_exception
          (λ t. Ahead ends t rest)
  unfolding varint_loop
  varint_loop_continues width d ret fail ends s [] rest failing h a = failing s a
  varint_loop_continues width d ret fail ends s (x ∷ xs) rest failing h a =
      let (s1, e1, a1, _) = eof-Ahead src ends s x (xs ++ rest) a in
      let (s2, e2, a2) = read_byte-Ahead src ends s1 x (xs ++ rest) a1 in
      let more : (bit_and x 128 == 0) ≡ false = ground (arith, bit_and-top_bit x h.0.1) in
      rw (e1, e2, more)
        (varint_loop_continues width (d + 1) (add_group width ret x d) fail ends s2 xs rest failing
          h.1 a2)

  varint_loop_ends :
      (width rounds d ret : ℕ) (fail : Action S ℕ) (s : S) (xs : List ℕ)
      → ((s' : S)
          → Ahead true s' []
          → Throws (fail s') index_corruption_exception (λ t. Ahead true t []))
      → All Continues xs
      → length xs ≤ rounds
      → Ahead true s xs
      → Throws
          (varint_loop ⦃impl = impl⦄ width rounds d ret fail s)
          index_corruption_exception
          (λ t. Ahead true t [])
  unfolding varint_loop
  varint_loop_ends width zero d ret fail s [] failing h l a = failing s a
  varint_loop_ends width zero d ret fail s (x ∷ xs) failing h l a = absurd (omega arith)
  varint_loop_ends width (suc rounds) d ret fail s [] failing h l a =
      rw (eof-exhausted src s a) (failing s a)
  varint_loop_ends width (suc rounds) d ret fail s (x ∷ xs) failing h l a =
      let (s1, e1, a1, _) = eof-Ahead src true s x xs a in
      let (s2, e2, a2) = read_byte-Ahead src true s1 x xs a1 in
      let more : (bit_and x 128 == 0) ≡ false = ground (arith, bit_and-top_bit x h.0.1) in
      rw (e1, e2, more)
        (varint_loop_ends width rounds (d + 1) (add_group width ret x d) fail s2 xs failing h.1
          (omega arith) a2)

  -- Where the source ends after at most five bytes that all have the top bit set, `readVarint32`
  -- and `readVarint64` throw IndexCorruptionException, and the source is read to its end.
  pub read_varint_truncated :
      (s : S) (xs : List ℕ)
      → All Continues xs
      → length xs ≤ max_varint_length32
      → Ahead true s xs
      → Throws (read_varint32 ⦃impl = impl⦄ s) index_corruption_exception (λ t. Ahead true t [])
        × Throws (read_varint64 ⦃impl = impl⦄ s) index_corruption_exception (λ t. Ahead true t [])
  unfolding read_varint32 read_varint64
  read_varint_truncated s xs h l a = (
    varint_loop_ends 32 5 0 0 _ s xs (λ s' a'. (refl, a')) h l a,
    varint_loop_ends 64 10 0 0 _ s xs (λ s' a'. (refl, a')) h (omega arith) a,
  )

  -- Five bytes with the top bit set make `readVarint32` throw IndexCorruptionException, whatever
  -- follows; the five bytes are consumed.
  pub read_varint32_overlong :
      (ends : Bool) (s : S) (xs rest : List ℕ)
      → All Continues xs
      → length xs ≡ max_varint_length32
      → Ahead ends s (xs ++ rest)
      → Throws (read_varint32 ⦃impl = impl⦄ s) index_corruption_exception (λ t. Ahead ends t rest)
  unfolding read_varint32
  read_varint32_overlong ends s xs rest h l a =
      rw (← l) (varint_loop_continues 32 0 0 _ ends s xs rest (λ s' a'. (refl, a')) h a)

  -- Ten bytes with the top bit set make `readVarint64` throw IndexCorruptionException, whatever
  -- follows; the ten bytes are consumed.
  pub read_varint64_overlong :
      (ends : Bool) (s : S) (xs rest : List ℕ)
      → All Continues xs
      → length xs ≡ max_varint_length64
      → Ahead ends s (xs ++ rest)
      → Throws (read_varint64 ⦃impl = impl⦄ s) index_corruption_exception (λ t. Ahead ends t rest)
  unfolding read_varint64
  read_varint64_overlong ends s xs rest h l a =
      rw (← l) (varint_loop_continues 64 0 0 _ ends s xs rest (λ s' a'. (refl, a')) h a)
