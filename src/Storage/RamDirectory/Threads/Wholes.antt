-- ===== src/Storage/RamDirectory/Threads/Wholes.antt =====
-- A call that holds the mutex to its end keeps what holds of the threads.
use mathlib.Core.Path.{subst}
use lucanthrope.Base.{ℕ, ◌≡◌, sym, ap, ◌∙◌, String, List, Option, arith}
use lucanthrope.Exception.{ok}
use lucanthrope.Storage.RamFile.{RamFile}
use lucanthrope.Storage.RamFileIndexInput.{RamInput}
use lucanthrope.Storage.RamDirectory.{
  RamDirectory, create_output, obtain_lock, release_lock, commit, rename, open_input,
}
use lucanthrope.Storage.RamDirectory.References.{occurrences}
use lucanthrope.Storage.RamDirectory.Worlds.{
  World, Step, created, locked, committed, released, renamed, deleted, opened, closed, Reachable,
  after_step,
}
use lucanthrope.Storage.RamDirectory.Worlds.Contents.{opened_file}
use lucanthrope.Storage.RamDirectory.Lifetime.{Reachable-IsSafe}
use lucanthrope.Storage.RamDirectory.Refinement.View.{named_file}
use lucanthrope.Storage.RamDirectory.Threads.{IsWhole, settled_dir, settle}
use lucanthrope.Storage.RamDirectory.Threads.Settled.{
  create_output-settled, obtain_lock-settled, release_lock-settled, rename-settled, commit-settled,
  open_input-settled,
}
use lucanthrope.Storage.RamDirectory.Threads.Orderly.{IsDead, IsOrderly, settled_some}

-- The names change and the files do not.
same_files :
    (z : List ℕ) (w w' : World)
    → IsOrderly (record { world = w; doomed = z })
    → (w'.dir.heap ≡ w.dir.heap) × (w'.dir.next ≡ w.dir.next)
    → Reachable (settle (record { world = w'; doomed = z }))
    → IsOrderly (record { world = w'; doomed = z })
same_files z w w' i same r = record {
  reach = r;
  once = i.once;
  dead = λ p. subst (λ h. IsDead (occurrences p z) (h p)) (sym same.0) (i.dead p);
  unused = λ p le. ap (λ (h : ℕ → Option RamFile). h p) same.0 ∙ i.unused p (omega (arith, same.1));
}

-- The file that is opened is not about to be deallocated.
opened_free :
    (z : List ℕ) (w : World) (k : String) (p : ℕ) (s : RamInput) (d' : RamDirectory)
    → IsOrderly (record { world = w; doomed = z })
    → open_input k w.dir ≡ ok (p, s) d'
    → occurrences p z ≡ 0
opened_free z w k p s d' i e =
    let (old, _) = opened_file k p s w.dir d' e in
    let (g, there) =
      named_file (settled_dir z w.dir) w.readers (Reachable-IsSafe i.reach).sound k p old in
    (settled_some z p g w.dir there).0

-- The call is one of the atomic directory.
pub whole-Step :
    (z : List ℕ) {w w' : World} (step : Step w w')
    → IsWhole step
    → IsOrderly (record { world = w; doomed = z })
    → Step (settle (record { world = w; doomed = z })) (settle (record { world = w'; doomed = z }))
whole-Step z (created w k s d' e) t i = created _ k s _ (create_output-settled z w.dir d' k s e)
whole-Step z (locked w k d' e) t i = locked _ k _ (obtain_lock-settled z w.dir d' k e)
whole-Step z (released w k before after d' opens e) t i =
    released _ k before after _ opens (release_lock-settled z w.dir d' k e)
whole-Step z (renamed w src target p r d' old still e) t i =
    renamed _ src target p r _ old still (rename-settled z w.dir d' r src target e)
whole-Step z (committed w k before after f d' opens e) t i =
    let free : occurrences w.dir.next z ≡ 0 =
      ground (arith, i.dead w.dir.next, i.unused w.dir.next) in
    committed _ k before after f _ opens (commit-settled z w.dir d' k f free e)
whole-Step z (opened w k p s d' e) t i =
    opened _ k p s _ (open_input-settled z w.dir d' k p s (opened_free z w k p s d' i e) e)
whole-Step z (deleted w k d' e) t i = elim t [ ]
whole-Step z (closed w p before after d' opens e) t i = elim t [ ]

pub whole-IsOrderly :
    (z : List ℕ) {w w' : World} (step : Step w w')
    → IsWhole step
    → IsOrderly (record { world = w; doomed = z })
    → IsOrderly (record { world = w'; doomed = z })
unfolding create_output obtain_lock release_lock commit rename
whole-IsOrderly z (created w k s d' e) t i =
    same_files z w _ i (ground (arith, e))
      (after_step i.reach (whole-Step z (created w k s d' e) t i))
whole-IsOrderly z (locked w k d' e) t i =
    same_files z w _ i (ground (arith, e)) (after_step i.reach (whole-Step z (locked w k d' e) t i))
whole-IsOrderly z (released w k before after d' opens e) t i =
    same_files z w _ i (ground (arith, e))
      (after_step i.reach (whole-Step z (released w k before after d' opens e) t i))
whole-IsOrderly z (renamed w src target p r d' old still e) t i =
    same_files z w _ i (ground (arith, e))
      (after_step i.reach (whole-Step z (renamed w src target p r d' old still e) t i))
whole-IsOrderly z (committed w k before after f d' opens e) t i =
    let free : occurrences w.dir.next z ≡ 0 =
      ground (arith, i.dead w.dir.next, i.unused w.dir.next) in
    record {
      reach = after_step i.reach (whole-Step z (committed w k before after f d' opens e) t i);
      once = i.once;
      dead = λ p. ground (arith, e, free, i.dead p);
      unused = λ p le. ground (arith, e, i.unused p);
    }
whole-IsOrderly z (opened w k p s d' e) t i =
    let (_, (f, here, more)) = opened_file k p s w.dir d' e in
    let free = opened_free z w k p s d' i e in
    record {
      reach = after_step i.reach (whole-Step z (opened w k p s d' e) t i);
      once = i.once;
      dead = λ q. rw (← more) (ground (arith, free, i.dead q));
      unused = λ q le.
          rw (← more) (ground (arith, here, i.unused q, ap (λ (d : RamDirectory). d.next) more));
    }
whole-IsOrderly z (deleted w k d' e) t i = elim t [ ]
whole-IsOrderly z (closed w p before after d' opens e) t i = elim t [ ]
