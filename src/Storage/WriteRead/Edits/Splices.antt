-- ===== src/Storage/WriteRead/Edits/Splices.antt =====
-- The bytes of a file after a part of them is replaced.
use lucanthrope.Base.{
  ℕ, suc, zero, ◌+◌, ◌≤◌, ◌<◌, ◌≡◌, ◌⊎◌, inl, inr, max, List, [], ◌∷◌, ◌++◌, length, take, drop,
  length-append, length-take-le, length-drop, arith,
}
use lucanthrope.Storage.RamFile.{RamFile, Byte}
use lucanthrope.Storage.RamFileIndexInput.Memory.{Holds}
use lucanthrope.Storage.WriteRead.Edits.{splice}

module _ (f g : RamFile) where
  pub Holds-map :
      (p : ℕ) (xs : List ℕ)
      → ((i x : ℕ) → p ≤ i → i < p + length xs → Byte f i x → Byte g i x)
      → Holds f p xs
      → Holds g p xs
  Holds-map p [] k h = tt
  Holds-map p (x ∷ xs) k h = (
    k p x (omega arith) (omega arith) h.0,
    Holds-map (p + 1) xs (λ i y lo hi. k i y (omega arith) (omega arith)) h.1,
  )

module _ (f : RamFile) where
  pub Holds-append :
      (p q : ℕ) (xs ys : List ℕ)
      → q ≡ p + length xs
      → Holds f p xs
      → Holds f q ys
      → Holds f p (xs ++ ys)
  Holds-append p q [] ys e h k = let e' : q ≡ p = omega arith in rw e' at k
  Holds-append p q (x ∷ xs) ys e h k = (h.0, Holds-append (p + 1) q xs ys (omega arith) h.1 k)

  pub Holds-take : (n p : ℕ) (xs : List ℕ) → Holds f p xs → Holds f p (take n xs)
  Holds-take zero p xs h = tt
  Holds-take (suc n) p [] h = tt
  Holds-take (suc n) p (x ∷ xs) h = (h.0, Holds-take n (p + 1) xs h.1)

  pub Holds-drop : (n p q : ℕ) (xs : List ℕ) → q ≡ p + n → Holds f p xs → Holds f q (drop n xs)
  Holds-drop zero p q xs e h = let e' : q ≡ p = omega arith in rw e' h
  Holds-drop (suc n) p q [] e h = tt
  Holds-drop (suc n) p q (x ∷ xs) e h = Holds-drop n (p + 1) q xs (omega arith) h.1

pub length-splice :
    (p : ℕ) (bs xs : List ℕ)
    → p ≤ length xs
    → length (splice p bs xs) ≡ max (length xs) (p + length bs)
length-splice p bs xs h = omega (
  arith,
  length-append (take p xs) (bs ++ drop (p + length bs) xs),
  length-append bs (drop (p + length bs) xs),
  length-take-le p xs h,
  length-drop (p + length bs) xs,
)

pub Holds-splice :
    (f g : RamFile) (p : ℕ) (bs xs : List ℕ)
    → p ≤ length xs
    → Holds f 0 xs
    → Holds g p bs
    → ((i x : ℕ) → (i < p) ⊎ (p + length bs ≤ i) → Byte f i x → Byte g i x)
    → Holds g 0 (splice p bs xs)
Holds-splice f g p bs xs fits h new kept =
    let q : ℕ = p + length bs in
    let len = length-take-le p xs fits in
    let before : Holds g 0 (take p xs) =
      Holds-map f g 0 (take p xs) (λ i x lo hi. kept i x (inl (omega arith)))
        (Holds-take f p 0 xs h) in
    let after : Holds g q (drop q xs) =
      Holds-map f g q (drop q xs) (λ i x lo hi. kept i x (inr (omega arith)))
        (Holds-drop f q 0 q xs (omega arith) h) in
    Holds-append g 0 p (take p xs) (bs ++ drop q xs) (omega arith) before
      (Holds-append g p q bs (drop q xs) (omega arith) new after)
