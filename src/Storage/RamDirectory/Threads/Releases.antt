-- ===== src/Storage/RamDirectory/Threads/Releases.antt =====
-- The turns that release a reference or a file.
use lucanthrope.Base.{
  ℕ, ◌-◌, ◌≤◌, ◌<◌, ◌≡◌, ap, String, List, ◌∷◌, ◌++◌, some, Option-cases, inl, inr, arith,
}
use lucanthrope.Exception.{Outcome, ok}
use lucanthrope.Storage.RamFile.{RamFile}
use lucanthrope.Storage.FileMap.{dummy, file, find, erase}
use lucanthrope.Storage.RamDirectory.{RamDirectory, unref_reader, delete_file, set_heap, set_files}
use lucanthrope.Storage.RamDirectory.References.{occurrences}
use lucanthrope.Storage.RamDirectory.Worlds.{World, Step, deleted, closed, Reachable}
use lucanthrope.Storage.RamDirectory.Lifetime.{Reachable-IsSafe, close_input_lem}
use lucanthrope.Storage.RamDirectory.Refinement.View.{named_file}
use lucanthrope.Storage.RamDirectory.Threads.{
  count_at, count_down, remove_name, deallocate, Shared, doom, settled_dir, settle,
}
use lucanthrope.Storage.RamDirectory.Threads.Orderly.{
  IsOrderly, settled_some, drop_ref-settled, frees-settled,
}

-- The count of `p` has gone down, in a directory `d` with the files of the world before.
pub count_down-IsOrderly :
    (z : List ℕ) (w w' : World) (p c : ℕ) (f : RamFile) (d : RamDirectory)
    → IsOrderly (record { world = w; doomed = z })
    → d.heap ≡ w.dir.heap
    → d.next ≡ w.dir.next
    → (settled_dir z w.dir).heap p ≡ some f
    → count_at p (d.heap p) d ≡ ok c w'.dir
    → Reachable (settle (record { world = w'; doomed = doom c p z }))
    → IsOrderly (record { world = w'; doomed = doom c p z })
unfolding count_at
count_down-IsOrderly z w w' p c f d i heaps nexts h e r =
    let (free, here) = settled_some z p f w.dir h in
    let less : RamFile = record f { refs = f.refs - 1 } in
    let found : d.heap p ≡ some f = rw heaps here in
    let counted : Outcome.ok (f.refs - 1) (set_heap p (some less) d) ≡ ok c w'.dir =
      rw found at e in
    let left : f.refs - 1 ≡ c = cc (counted) in
    let dir : set_heap p (some less) d ≡ w'.dir = cc (counted) in
    record {
      reach = r;
      once = λ q. ground (arith, i.once q, free);
      dead = λ q. rw (← dir, ← left, heaps) (ground (arith, i.dead q, free));
      unused = λ q le.
          let below : w.dir.next ≤ q =
            omega (arith, nexts, ap (λ (t : RamDirectory). t.next) dir) in
          rw (← dir, heaps) (ground (arith, here, i.unused q below));
    }

pub removed_file :
    (k : String) (p c : ℕ) (d d' : RamDirectory)
    → remove_name k d ≡ ok (some (p, c)) d'
    → (find k d.files ≡ some (file p))
      × (count_at p (d.heap p) (set_files (erase k d.files) d) ≡ ok c d')
unfolding remove_name count_at
removed_file k p c d d' e = elim (Option-cases (find k d.files)) [
  | inl new ↦ absurd (ground (arith, e, new))
  | inr (dummy, old) ↦ absurd (ground (arith, e, old))
  | inr (file q, old) ↦ elim (Option-cases (d.heap q)) [
    | inl gone ↦ absurd (ground (arith, e, old, gone))
    | inr (f, here) ↦
        let same : q ≡ p = ground (arith, e, old, here) in
        (rw same at old, rw (← same) (ground (arith, e, old, here)))
  ]
]

-- A count that goes down is that of a file which is there, with a reference, and the atomic
-- directory drops one.
pub closes-Step :
    (s : Shared) (p c : ℕ) (before after : List ℕ) (d' : RamDirectory)
    → IsOrderly s
    → (opens : s.world.readers ≡ before ++ p ∷ after) → (e : count_down p s.world.dir ≡ ok c d')
    → ((f : RamFile) × ((settled_dir s.doomed s.world.dir).heap p ≡ some f))
      × Step (settle s) (
          settle (record {
            world = record (s.world) { dir = d'; readers = before ++ after };
            doomed = doom c p s.doomed;
          }))
unfolding count_down unref_reader
closes-Step s p c before after d' i opens e =
    let ((f, there), _) = close_input_lem (settle s) p before after i.reach opens in
    let live : 0 < f.refs = rw there at ((Reachable-IsSafe i.reach).sound.live p) in
    let dropped = drop_ref-settled s.doomed p c f s.world.dir d' there live e in
    ((f, there), closed (settle s) p before after _ opens dropped)

pub removes-Step :
    (s : Shared) (k : String) (p c : ℕ) (d' : RamDirectory)
    → IsOrderly s
    → remove_name k s.world.dir ≡ ok (some (p, c)) d'
    → ((f : RamFile) × ((settled_dir s.doomed s.world.dir).heap p ≡ some f))
      × Step
          (settle s)
          (settle (record { world = record (s.world) { dir = d' }; doomed = doom c p s.doomed }))
unfolding delete_file
removes-Step s k p c d' i e =
    let (old, counted) = removed_file k p c s.world.dir d' e in
    let sound = (Reachable-IsSafe i.reach).sound in
    let (f, there) = named_file (settled_dir s.doomed s.world.dir) s.world.readers sound k p old in
    let live : 0 < f.refs = rw there at (sound.live p) in
    let d₁ : RamDirectory = set_files (erase k s.world.dir.files) s.world.dir in
    let dropped = drop_ref-settled s.doomed p c f d₁ d' there live counted in
    ((f, there), deleted (settle s) k _ (rw (delete_file, old) dropped))

pub frees-same :
    (s : Shared) (p : ℕ) (before after : List ℕ) (d' : RamDirectory)
    → IsOrderly s
    → s.doomed ≡ before ++ p ∷ after
    → deallocate p s.world.dir ≡ ok tt d'
    → settled_dir s.doomed s.world.dir ≡ settled_dir (before ++ after) d'
frees-same s p before after d' i opens e =
    let once : occurrences p (before ++ p ∷ after) ≤ 1 = rw opens at (i.once p) in
    rw opens (frees-settled p before after s.world.dir d' once e)
