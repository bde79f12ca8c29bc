-- ===== src/Storage/RamDirectory/Threads/Turns.antt =====
-- Each turn of a thread is a call of the atomic directory, or none.
use mathlib.Core.Path.{subst}
use lucanthrope.Base.{
  ℕ, ◌≤◌, ◌<◌, ◌≡◌, ◌⊎◌, refl, ap, List, ◌∷◌, ◌++◌, none, Option-cases, inl, inr, arith,
}
use lucanthrope.Exception.{ok}
use lucanthrope.Storage.FileMap.{erase, pointers}
use lucanthrope.Storage.RamDirectory.{RamDirectory, set_heap, set_files, new_directory}
use lucanthrope.Storage.RamDirectory.References.{occurrences}
use lucanthrope.Storage.RamDirectory.References.Drops.{occurrences-append}
use lucanthrope.Storage.RamDirectory.Worlds.{Step, Reachable, start, after_step}
use lucanthrope.Storage.RamDirectory.Lifetime.{Reachable-IsSafe}
use lucanthrope.Storage.RamDirectory.Threads.{
  count_down, free_at, deallocate, Shared, Turn, whole, closes, removes, frees, Threads, turn,
  settle,
}
use lucanthrope.Storage.RamDirectory.Threads.Orderly.{IsDead, IsOrderly, freed}
use lucanthrope.Storage.RamDirectory.Threads.Wholes.{whole-Step, whole-IsOrderly}
use lucanthrope.Storage.RamDirectory.Threads.Releases.{
  count_down-IsOrderly, removed_file, closes-Step, removes-Step, frees-same,
}

-- A turn is a call of the atomic directory, or changes nothing there.
pub Turn-Step :
    {s s' : Shared} → Turn s s' → IsOrderly s → (settle s ≡ settle s') ⊎ Step (settle s) (settle s')
Turn-Step (whole s w' step t) i = inr (whole-Step s.doomed step t i)
Turn-Step (closes s p c before after d' opens e) i =
    inr (closes-Step s p c before after d' i opens e).1
Turn-Step (removes s k p c d' e) i = inr (removes-Step s k p c d' i e).1
Turn-Step (frees s p before after d' opens e) i = inl (
    ap (λ (d : RamDirectory). record (s.world) { dir = d })
      (frees-same s p before after d' i opens e))

pub Turn-IsOrderly : {s s' : Shared} → Turn s s' → IsOrderly s → IsOrderly s'
unfolding count_down
Turn-IsOrderly (whole s w' step t) i = whole-IsOrderly s.doomed step t i
Turn-IsOrderly (closes s p c before after d' opens e) i =
    let ((f, there), step) = closes-Step s p c before after d' i opens e in
    count_down-IsOrderly s.doomed s.world _ p c f s.world.dir i refl refl there e
      (after_step i.reach step)
Turn-IsOrderly (removes s k p c d' e) i =
    let ((f, there), step) = removes-Step s k p c d' i e in
    let (_, counted) = removed_file k p c s.world.dir d' e in
    let d₁ : RamDirectory = set_files (erase k s.world.dir.files) s.world.dir in
    count_down-IsOrderly s.doomed s.world _ p c f d₁ i refl refl there counted
      (after_step i.reach step)
Turn-IsOrderly (frees s p before after d' opens e) i =
    let once : (q : ℕ) → occurrences q (before ++ p ∷ after) ≤ 1 = rw opens at i.once in
    let dead : (q : ℕ) → IsDead (occurrences q (before ++ p ∷ after)) (s.world.dir.heap q) =
      rw opens at i.dead in
    let gone : set_heap p none s.world.dir ≡ d' = freed p s.world.dir d' e in
    record {
      reach =
          subst (λ (d : RamDirectory). Reachable (record (s.world) { dir = d }))
            (frees-same s p before after d' i opens e) i.reach;
      once = λ q. omega (arith, once q, occurrences-append q p before after);
      dead = λ q. rw (← gone) (
          ground (
            arith,
            dead q,
            once p,
            occurrences-append q p before after,
            occurrences-append p p before after,
          ));
      unused =
          λ q le. rw (← gone) (ground (arith, i.unused q, ap (λ (t : RamDirectory). t.next) gone));
    }

pub Threads-IsOrderly : {s : Shared} → Threads s → IsOrderly s
unfolding new_directory
Threads-IsOrderly Threads.start = record {
  reach = start;
  once = λ p. omega arith;
  dead = λ p. refl;
  unused = λ p le. refl;
}
Threads-IsOrderly (turn t u) = Turn-IsOrderly u (Threads-IsOrderly t)

-- Whatever the threads have done in whatever order, if they rename finished files only and the
-- container does not rehash then, a file that a thread is about to deallocate is there, its
-- destructor does not fail its assertion, no name and no open input stream refers to it, and no
-- other thread is about to deallocate it.
pub deallocate_lem :
    (s : Shared) (p : ℕ) (before after : List ℕ)
    → Threads s
    → s.doomed ≡ before ++ p ∷ after
    → ((d : RamDirectory) × (deallocate p s.world.dir ≡ ok tt d))
      × (pointers p s.world.dir.files ≡ 0)
      × (occurrences p s.world.readers ≡ 0)
      × (occurrences p (before ++ after) ≡ 0)
unfolding deallocate free_at
deallocate_lem s p before after t opens =
    let i = Threads-IsOrderly t in
    let once : occurrences p (before ++ p ∷ after) ≤ 1 = rw opens at (i.once p) in
    let taken : 0 < occurrences p s.doomed =
      rw opens (ground (arith, occurrences-append p p before after)) in
    let counted = (Reachable-IsSafe i.reach).sound.counted p in
    elim (Option-cases (s.world.dir.heap p)) [
      | inl gone ↦ absurd (ground (arith, gone, i.dead p, taken))
      | inr (f, here) ↦
          let none_left : f.refs ≡ 0 = ground (arith, here, i.dead p, taken) in
          (
            (set_heap p none s.world.dir, ground (arith, here, none_left)),
            ground (arith, taken, counted),
            ground (arith, taken, counted),
            ground (arith, once, occurrences-append p p before after),
          )
    ]

-- Whatever the threads have done in whatever order, if they rename finished files only and the
-- container does not rehash then, the directory without the files that wait for their deallocation
-- is one that clients of an atomic directory can reach, with the same names, open streams and held
-- locks.
pub Threads-Reachable : {s : Shared} → Threads s → Reachable (settle s)
Threads-Reachable t = (Threads-IsOrderly t).reach
