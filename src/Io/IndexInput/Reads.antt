-- ===== src/Io/IndexInput/Reads.antt =====
-- `read` of lib/IO/IndexInput.cpp on a stream that keeps the promises of `IsSource`.
use lucanthrope.Base.{
  ℕ, zero, suc, ◌-◌, ◌≤◌, min, ◌≡◌, refl, ap, ◌∙◌, Bool, true, false, List, [], ◌∷◌, ◌++◌,
  append_assoc, append-nil, length, take, drop, take-split, drop-split, length-drop, length-append,
  take-append_length, drop-append_length, take-all, drop-all, arith,
}
use mathlib.Core.Path.{subst}
use lucanthrope.Exception.{ok}
use lucanthrope.Io.IndexInput.{InputImpl, copy_bytes, read_loop, read}
use lucanthrope.Io.IndexInput.Source.{IsSource, eof-Ahead, eof-exhausted}

-- `n` bytes are ahead, or the source ends.
abbrev pub Enough : Bool → ℕ → List ℕ → Type 0
Enough true n xs = Unit {0}
Enough false n xs = n ≤ length xs

module _ {S : Type 0} {impl : InputImpl S} (src : IsSource impl) where
  open src use {Ahead}

  copy_bytes-Ahead :
      (ends : Bool) (n : ℕ) (s : S) (xs : List ℕ)
      → Ahead ends s xs
      → n ≤ length xs
      → n ≤ impl.get_num_readable_bytes s
      → (s' : S) × (copy_bytes ⦃impl = impl⦄ n s ≡ ok (take n xs) s') × Ahead ends s' (drop n xs)
  unfolding copy_bytes
  copy_bytes-Ahead ends zero s xs a h r = (s, refl, a)
  copy_bytes-Ahead ends (suc n) s [] a h r = absurd (omega arith)
  copy_bytes-Ahead ends (suc n) s (x ∷ xs) a h r =
      let (s1, e1, a1, r1) = src.next ends s x xs a (omega arith) in
      let (s2, e2, a2) = copy_bytes-Ahead ends n s1 xs a1 (omega arith) (omega arith) in
      (s2, ground (arith, e1, e2), a2)

  -- How many bytes a round of the loop copies.
  chunk_fits :
      (ends : Bool) (s : S) (size : ℕ) (xs : List ℕ)
      → Ahead ends s xs
      → Enough ends size xs
      → (min (impl.get_num_readable_bytes s) size ≤ length xs)
  chunk_fits true s size xs a h = omega (arith, src.within s xs a)
  chunk_fits false s size xs a h = omega arith

  Enough-drop :
      (ends : Bool) (n size : ℕ) (xs : List ℕ)
      → Enough ends size xs
      → Enough ends (size - n) (drop n xs)
  Enough-drop true n size xs h = tt
  Enough-drop false n size xs h = omega (arith, length-drop n xs)

  read_loop-Ahead :
      (fuel size : ℕ) (copied : List ℕ) (ends : Bool) (s : S) (xs : List ℕ)
      → size ≤ fuel
      → Ahead ends s xs
      → Enough ends size xs
      → (s' : S) × (read_loop ⦃impl = impl⦄ fuel size copied s ≡ ok (copied ++ take size xs) s')
        × Ahead ends s' (drop size xs)
  unfolding read_loop
  read_loop-Ahead fuel zero copied ends s xs f a h = (s, rw append-nil, a)
  read_loop-Ahead zero (suc size) copied ends s xs f a h = absurd (omega arith)
  read_loop-Ahead (suc fuel) (suc size) copied true s [] f a h =
      (s, rw (eof-exhausted src s a, append-nil), a)
  read_loop-Ahead (suc fuel) (suc size) copied false s [] f a h = absurd (omega arith)
  read_loop-Ahead (suc fuel) (suc size) copied ends s (x ∷ xs) f a h =
      let (s1, e1, a1, more) = eof-Ahead src ends s x xs a in
      let n : ℕ = min (impl.get_num_readable_bytes s1) (suc size) in
      let (s2, e2, a2) =
        copy_bytes-Ahead ends n s1 (x ∷ xs) a1 (chunk_fits ends s1 (suc size) (x ∷ xs) a1 h)
          (omega arith) in
      let (s3, e3, a3) =
        read_loop-Ahead fuel (suc size - n) (copied ++ take n (x ∷ xs)) ends s2 (drop n (x ∷ xs))
          (omega arith) a2 (Enough-drop ends n (suc size) (x ∷ xs) h) in
      let taken =
        append_assoc copied _ _
        ∙ ap (◌++◌ copied) (take-split n (suc size) (x ∷ xs) (omega arith)) in
      (
        s3,
        rw (e1, e2) (e3 ∙ ap (λ t. ok t s3) taken),
        subst (Ahead ends s3) (drop-split n (suc size) (x ∷ xs) (omega arith)) a3,
      )

  -- `read` copies what is ahead, up to `size` bytes, and fewer only at the end of the source.
  pub read-Ahead :
      (size : ℕ) (ends : Bool) (s : S) (xs : List ℕ)
      → Ahead ends s xs
      → Enough ends size xs
      → (s' : S) × (read ⦃impl = impl⦄ size s ≡ ok (take size xs) s') × Ahead ends s' (drop size xs)
  unfolding read
  read-Ahead size ends s xs a h =
      let (s1, e1, a1) = read_loop-Ahead size size [] ends s xs (omega arith) a h in
      (
        impl.move (length (take size xs)) s1,
        ground (arith, e1),
        src.move-Ahead ends s1 (drop size xs) _ a1,
      )

  Enough-append : (ends : Bool) (ys xs : List ℕ) → Enough ends (length ys) (ys ++ xs)
  Enough-append true ys xs = tt
  Enough-append false ys xs = omega (arith, length-append ys xs)

  -- With `ys` ahead, `read` of as many bytes returns them.
  pub read_prefix :
      (ys : List ℕ) (ends : Bool) (s : S) (xs : List ℕ)
      → Ahead ends s (ys ++ xs)
      → (s' : S) × (read ⦃impl = impl⦄ (length ys) s ≡ ok ys s') × Ahead ends s' xs
  read_prefix ys ends s xs a =
      let (s1, e1, a1) = read-Ahead (length ys) ends s (ys ++ xs) a (Enough-append ends ys xs) in
      (
        s1,
        e1 ∙ ap (λ t. ok t s1) (take-append_length ys xs),
        subst (Ahead ends s1) (drop-append_length ys xs) a1,
      )

  -- With no more bytes left than are wanted, `read` returns those, and the source is at its end.
  pub read_short :
      (size : ℕ) (s : S) (xs : List ℕ)
      → Ahead true s xs
      → length xs ≤ size
      → (s' : S) × (read ⦃impl = impl⦄ size s ≡ ok xs s') × Ahead true s' []
  read_short size s xs a h =
      let (s1, e1, a1) = read-Ahead size true s xs a tt in
      (
        s1,
        e1 ∙ ap (λ t. ok t s1) (take-all size xs h),
        subst (Ahead true s1) (drop-all size xs h) a1,
      )
