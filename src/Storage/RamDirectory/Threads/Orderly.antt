-- ===== src/Storage/RamDirectory/Threads/Orderly.antt =====
-- What holds whatever the threads do, and in whatever order.
use mathlib.Core.Path.{fun_ext}
use lucanthrope.Base.{
  ℕ, ◌-◌, ◌≤◌, ◌<◌, ◌≡◌, ◌⊎◌, ap, true, false, List, ◌∷◌, ◌++◌, Option, none, some, ◌==◌,
  Bool-cases, inl, inr, arith,
}
use lucanthrope.Exception.{Outcome, ok}
use lucanthrope.Storage.RamFile.{RamFile}
use lucanthrope.Storage.RamDirectory.{RamDirectory, drop_ref, set_heap}
use lucanthrope.Storage.RamDirectory.References.{occurrences}
use lucanthrope.Storage.RamDirectory.References.Drops.{occurrences-append}
use lucanthrope.Storage.RamDirectory.Worlds.{Reachable}
use lucanthrope.Storage.RamDirectory.Threads.{
  count_at, free_at, deallocate, Shared, doom, settled_dir, settle,
}
use lucanthrope.Storage.RamDirectory.Threads.Settled.{set_heap-settled}

-- A doomed file is there, with no reference.
abbrev pub IsDead : ℕ → Option RamFile → Type 0
IsDead n none = n ≡ 0
IsDead n (some f) = (n ≡ 0) ⊎ (f.refs ≡ 0)

pub record IsOrderly (s : Shared) : Type 0 where
  pub reach : Reachable (settle s)
  pub once : (p : ℕ) → occurrences p s.doomed ≤ 1
  pub dead : (p : ℕ) → IsDead (occurrences p s.doomed) (s.world.dir.heap p)
  pub unused : (p : ℕ) → s.world.dir.next ≤ p → s.world.dir.heap p ≡ none

pub settled_some :
    (z : List ℕ) (p : ℕ) (f : RamFile) (d : RamDirectory)
    → (settled_dir z d).heap p ≡ some f
    → (occurrences p z ≡ 0) × (d.heap p ≡ some f)
settled_some z p f d h = elim (Bool-cases (occurrences p z == 0)) [
  | inl free ↦ ((ground (arith, free)), ground (arith, free, h))
  | inr taken ↦ absurd (ground (arith, taken, h))
]

-- A count that goes down, and the file doomed if it is 0 then, is a reference dropped.
pub drop_ref-settled :
    (z : List ℕ) (p c : ℕ) (f : RamFile) (d d' : RamDirectory)
    → (settled_dir z d).heap p ≡ some f
    → 0 < f.refs
    → count_at p (d.heap p) d ≡ ok c d'
    → drop_ref p ((settled_dir z d).heap p) (settled_dir z d) ≡ ok tt (settled_dir (doom c p z) d')
unfolding drop_ref count_at
drop_ref-settled z p c f d d' h live e =
    let (free, here) = settled_some z p f d h in
    let less : RamFile = record f { refs = f.refs - 1 } in
    let counted : Outcome.ok (f.refs - 1) (set_heap p (some less) d) ≡ ok c d' = rw here at e in
    let left : f.refs - 1 ≡ c = cc (counted) in
    let dir : set_heap p (some less) d ≡ d' = cc (counted) in
    elim (Bool-cases (f.refs == 1)) [
      | inl last ↦
          let none_left : (f.refs - 1 == 0) ≡ true = ground (arith, last) in
          let heaps : (set_heap p none (settled_dir z d)).heap
              ≡ (settled_dir (p ∷ z) (set_heap p (some less) d)).heap =
            fun_ext λ q. ground (arith, free) in
          rw (← left, ← dir, none_left, h, drop_ref, last)
            (ap (λ (g : ℕ → Option RamFile). Outcome.ok tt (record d { heap = g })) heaps)
      | inr more ↦
          let some_left : (f.refs - 1 == 0) ≡ false = ground (arith, more, live) in
          rw (← left, ← dir, some_left, h, drop_ref, more)
            (ap (λ (t : RamDirectory). Outcome.ok tt t) (set_heap-settled z p (some less) d free))
    ]

pub freed : (p : ℕ) (d d' : RamDirectory) → deallocate p d ≡ ok tt d' → set_heap p none d ≡ d'
unfolding deallocate free_at
freed p d d' e = ground (arith, e)

pub frees-settled :
    (p : ℕ) (before after : List ℕ) (d d' : RamDirectory)
    → occurrences p (before ++ p ∷ after) ≤ 1
    → deallocate p d ≡ ok tt d'
    → settled_dir (before ++ p ∷ after) d ≡ settled_dir (before ++ after) d'
frees-settled p before after d d' once e =
    let gone : set_heap p none d ≡ d' = freed p d d' e in
    let heaps : (settled_dir (before ++ p ∷ after) d).heap
        ≡ (settled_dir (before ++ after) (set_heap p none d)).heap =
      fun_ext λ q.
        ground
          (arith, once, occurrences-append q p before after, occurrences-append p p before after) in
    rw (← gone) (ap (λ (g : ℕ → Option RamFile). record d { heap = g }) heaps)
