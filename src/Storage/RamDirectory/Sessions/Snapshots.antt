-- ===== src/Storage/RamDirectory/Sessions/Snapshots.antt =====
-- What the open input streams see while the directory is used.
use lucanthrope.Base.{
  ℕ, zero, suc, ◌≤◌, ◌<◌, ◌≡◌, refl, ap, List, [], ◌∷◌, ◌++◌, Option, none, some, get_elem?, take,
  drop, Option-cases, inl, inr, arith,
}
use lucanthrope.Storage.RamFile.{RamFile, Block}
use lucanthrope.Storage.Directory.{finished}
use lucanthrope.Storage.RamDirectory.References.{occurrences}
use lucanthrope.Storage.RamDirectory.Worlds.{World, Step, IsSafe}
use lucanthrope.Storage.RamDirectory.Worlds.Contents.{SameBytes, Step-SameBytes}
use lucanthrope.Storage.RamDirectory.Refinement.{contents_of}
use lucanthrope.Storage.RamDirectory.Sessions.{remove}

-- Each stream has the blocks and the length that its file has.
abbrev pub Seen : (ℕ → Option RamFile) → List ℕ → List (List Block × ℕ) → Type 0
Seen h [] [] = Unit {0}
Seen h (p ∷ ps) ((blocks, len) ∷ ss) =
    (contents_of (h p) ≡ some (finished blocks len)) × Seen h ps ss
Seen h ps ss = ⊥

Step-contents :
    {w w' : World} (p : ℕ) (blocks : List Block) (len : ℕ)
    → Step w w'
    → IsSafe w
    → IsSafe w'
    → 0 < occurrences p w'.readers
    → contents_of (w.dir.heap p) ≡ some (finished blocks len)
    → contents_of (w'.dir.heap p) ≡ some (finished blocks len)
Step-contents {w} {w'} p blocks len step i i' open_ h = elim (Option-cases (w.dir.heap p)) [
  | inl gone ↦ absurd (ground (arith, h, gone))
  | inr (f, here) ↦ elim (Option-cases (w'.dir.heap p)) [
    | inl gone ↦ absurd (ground (arith, gone, i'.sound.counted p, open_))
    | inr (g, there) ↦
        let kept : SameBytes f (w'.dir.heap p) = Step-SameBytes p f step i here in
        let (same, long) = rw there at kept in
        rw (there, contents_of, same, long) (rw (here, contents_of) at h)
  ]
]

pub Step-Seen :
    {w w' : World} (ps : List ℕ) (ss : List (List Block × ℕ))
    → Step w w'
    → IsSafe w
    → IsSafe w'
    → ((p : ℕ) → occurrences p ps ≤ occurrences p w'.readers)
    → Seen w.dir.heap ps ss
    → Seen w'.dir.heap ps ss
Step-Seen [] [] step i i' among h = tt
Step-Seen [] (s ∷ ss) step i i' among h = h
Step-Seen (p ∷ ps) [] step i i' among h = h
Step-Seen (p ∷ ps) ((blocks, len) ∷ ss) step i i' among h = (
  Step-contents p blocks len step i i' (ground (arith, among p)) h.0,
  Step-Seen ps ss step i i' (λ q. omega (arith, among q)) h.1,
)

pub get_elem?-Seen :
    (h : ℕ → Option RamFile) (ps : List ℕ) (ss : List (List Block × ℕ)) (n p : ℕ)
    → Seen h ps ss
    → get_elem? ps n ≡ some p
    → (blocks : List Block) × (len : ℕ) × (get_elem? ss n ≡ some (blocks, len))
      × (contents_of (h p) ≡ some (finished blocks len))
get_elem?-Seen h [] ss n p seen e = cc
get_elem?-Seen h (q ∷ ps) [] n p seen e = elim seen [ ]
get_elem?-Seen h (q ∷ ps) ((blocks, len) ∷ ss) zero p seen e =
    (blocks, len, refl, let same : q ≡ p = cc (e) in rw (← same) seen.0)
get_elem?-Seen h (q ∷ ps) (s ∷ ss) (suc n) p seen e = get_elem?-Seen h ps ss n p seen.1 e

pub missing-Seen :
    (h : ℕ → Option RamFile) (ps : List ℕ) (ss : List (List Block × ℕ)) (n : ℕ)
    → Seen h ps ss
    → get_elem? ps n ≡ none
    → (get_elem? ss n ≡ none) × (remove n ss ≡ ss)
missing-Seen h [] [] zero seen e = (refl, refl)
missing-Seen h [] [] (suc n) seen e = (refl, refl)
missing-Seen h [] (s ∷ ss) n seen e = elim seen [ ]
missing-Seen h (q ∷ ps) [] n seen e = elim seen [ ]
missing-Seen h (q ∷ ps) (s ∷ ss) zero seen e = cc
missing-Seen h (q ∷ ps) (s ∷ ss) (suc n) seen e =
    let (none_there, same) = missing-Seen h ps ss n seen.1 e in (none_there, ap (◌∷◌ s) same)

pub remove-Seen :
    (h : ℕ → Option RamFile) (ps : List ℕ) (ss : List (List Block × ℕ)) (n : ℕ)
    → Seen h ps ss
    → Seen h (remove n ps) (remove n ss)
remove-Seen h [] [] zero seen = tt
remove-Seen h [] [] (suc n) seen = tt
remove-Seen h [] (s ∷ ss) n seen = elim seen [ ]
remove-Seen h (q ∷ ps) [] n seen = elim seen [ ]
remove-Seen h (q ∷ ps) (s ∷ ss) zero seen = seen.1
remove-Seen h (q ∷ ps) (s ∷ ss) (suc n) seen = (seen.0, remove-Seen h ps ss n seen.1)

pub split-get_elem? :
    {A : Type 0} (xs : List A) (n : ℕ) (x : A)
    → get_elem? xs n ≡ some x
    → xs ≡ take n xs ++ x ∷ drop (suc n) xs
split-get_elem? [] n x e = cc
split-get_elem? (y ∷ xs) zero x e = let same : y ≡ x = cc (e) in ap (λ z. z ∷ xs) same
split-get_elem? (y ∷ xs) (suc n) x e = ap (◌∷◌ y) (split-get_elem? xs n x e)
