-- ===== src/Storage/RamDirectory/Threads/Persistence.antt =====
-- A finished file while other threads go on.
use lucanthrope.Base.{
  ℕ, ◌≡◌, ◌≢◌, ◌∙◌, sym, ap, String, some, if◌then◌else◌, Bool-cases, inl, inr, arith, str_eq,
  str_eq_iff,
}
use lucanthrope.Exception.{ok}
use lucanthrope.Storage.RamFile.{RamFile}
use lucanthrope.Storage.FileMap.{dummy, file, find, put, erase}
use lucanthrope.Storage.FileMap.Laws.{IsMap, find-put, find-erase, put-IsMap}
use lucanthrope.Storage.RamDirectory.{RamDirectory, set_files}
use lucanthrope.Storage.RamDirectory.Worlds.{
  World, Step, created, locked, committed, released, renamed, deleted, opened, closed, held,
  unfinished,
}
use lucanthrope.Storage.RamDirectory.Worlds.Contents.{SameBytes, Step-SameBytes}
use lucanthrope.Storage.RamDirectory.Worlds.Safety.{
  created_files, locked_files, committed_files, released_files, renamed_files, opened_files,
  pending_lem,
}
use lucanthrope.Storage.RamDirectory.Lifetime.{Reachable-IsSafe}
use lucanthrope.Storage.RamDirectory.Refinement.View.{named_file}
use lucanthrope.Storage.RamDirectory.Threads.{
  IsWhole, Shared, Turn, whole, closes, removes, frees, count_at, count_down, deallocate, free_at,
  settle,
}
use lucanthrope.Storage.RamDirectory.Threads.Orderly.{IsOrderly}
use lucanthrope.Storage.RamDirectory.Threads.Releases.{removed_file}
use lucanthrope.Storage.RamDirectory.Threads.Turns.{Turn-Step, Turn-IsOrderly}

-- The name of the file `k` after the call, and after the turn.
abbrev name_after_step : String → {w w' : World} → Step w w' → String
name_after_step k (renamed w src target p rehashes d' old still e) =
    if str_eq src k then target else k
name_after_step k other = k

abbrev pub name_after : String → {s s' : Shared} → Turn s s' → String
name_after k (whole s w' step t) = name_after_step k step
name_after k other = k

-- The turn does not delete the file `k`.
abbrev pub Spares : String → {s s' : Shared} → Turn s s' → Type 0
Spares k (removes s j p c d' e) = j ≢ k
Spares k other = Unit {0}

-- Turns of the threads that do not delete the file `k`, and the name that it has then.
pub data Undeleted (k : String) (s : Shared) : String → Shared → Type 0 where
  no_turn : Undeleted k s k s
  next_turn :
      {j : String} {s' s'' : Shared} (t : Turn s' s'')
      → Undeleted k s j s'
      → Spares j t
      → Undeleted k s (name_after j t) s''

Step-find :
    (k : String) (p : ℕ) {w w' : World} (step : Step w w')
    → IsMap w.dir.files
    → ((j : String) → held j w.writers ≡ unfinished (find j w.dir.files))
    → IsWhole step
    → find k w.dir.files ≡ some (file p)
    → find (name_after_step k step) w'.dir.files ≡ some (file p)
Step-find k p (created w j s d' e) m pending t h =
    let (new, same) = created_files j s w.dir d' e in
    rw same (ground (arith, h, new, str_eq_iff j k, find-put j k dummy w.dir.files))
Step-find k p (locked w j d' e) m pending t h =
    let (new, same) = locked_files j w.dir d' e in
    rw same (ground (arith, h, new, str_eq_iff j k, find-put j k dummy w.dir.files))
Step-find k p (committed w j before after f d' opens e) m pending t h =
    let (old, same) = committed_files j f w.dir d' e in
    rw same (ground (arith, h, old, str_eq_iff j k, find-put j k (file w.dir.next) w.dir.files))
Step-find k p (released w j before after d' opens e) m pending t h =
    let old : find j w.dir.files ≡ some dummy = pending_lem w j before after pending opens in
    rw (released_files j w.dir d' old e)
      (ground (arith, h, old, str_eq_iff j k, find-erase j k w.dir.files m))
Step-find k p (renamed w src target q rehashes d' old still e) m pending t h =
    let (new, same) = renamed_files src target q rehashes w.dir d' old e in
    elim (Bool-cases (str_eq src k)) [
      | inl hit ↦
          rw (same, hit)
            (ground (
              arith,
              h,
              new,
              old,
              hit,
              str_eq_iff src k,
              str_eq_iff src target,
              str_eq_iff target target,
              find-put target target (file q) w.dir.files,
              find-erase src target (put target (file q) w.dir.files)
                  (put-IsMap target (file q) w.dir.files m),
            ))
      | inr other ↦
          rw (same, other)
            (ground (
              arith,
              h,
              new,
              other,
              str_eq_iff target k,
              find-put target k (file q) w.dir.files,
              find-erase src k (put target (file q) w.dir.files)
                  (put-IsMap target (file q) w.dir.files m),
            ))
    ]
Step-find k p (deleted w j d' e) m pending t h = elim t [ ]
Step-find k p (opened w j q s d' e) m pending t h = rw (opened_files j q s w.dir d' e) h
Step-find k p (closed w q before after d' opens e) m pending t h = elim t [ ]

count_down_files :
    (p q c : ℕ) (d d' : RamDirectory) → count_at p (d.heap q) d ≡ ok c d' → d'.files ≡ d.files
unfolding count_at
count_down_files p q c d d' e = ground (arith, e)

freed_files : (p : ℕ) (d d' : RamDirectory) → deallocate p d ≡ ok tt d' → d'.files ≡ d.files
unfolding deallocate free_at
freed_files p d d' e = ground (arith, e)

Turn-find :
    (k : String) (p : ℕ) {s s' : Shared} (t : Turn s s')
    → IsOrderly s
    → Spares k t
    → find k s.world.dir.files ≡ some (file p)
    → find (name_after k t) s'.world.dir.files ≡ some (file p)
unfolding count_down
Turn-find k p (whole s w' step t) i spares h =
    let safe = Reachable-IsSafe i.reach in Step-find k p step safe.sound.is_map safe.pending t h
Turn-find k p (closes s q c before after d' opens e) i spares h =
    rw (count_down_files q q c s.world.dir d' e) h
Turn-find k p (removes s j q c d' e) i spares h =
    let (old, counted) = removed_file j q c s.world.dir d' e in
    let m = (Reachable-IsSafe i.reach).sound.is_map in
    rw (count_down_files q q c (set_files (erase j s.world.dir.files) s.world.dir) d' counted)
      (ground (arith, h, spares, str_eq_iff j k, find-erase j k s.world.dir.files m))
Turn-find k p (frees s q before after d' opens e) i spares h = rw (freed_files q s.world.dir d' e) h

-- The name stands for a file with the blocks and the length of `f`, which no thread deallocates.
abbrev pub Persists : String → RamFile → Shared → Type 0
Persists k f s =
    (p : ℕ) × (g : RamFile) × (find k s.world.dir.files ≡ some (file p))
    × ((settle s).dir.heap p ≡ some g)
    × (g.blocks ≡ f.blocks)
    × (g.length ≡ f.length)

Turn-Persists :
    (k : String) (f : RamFile) {s s' : Shared} (t : Turn s s')
    → IsOrderly s
    → Spares k t
    → Persists k f s
    → Persists (name_after k t) f s'
Turn-Persists k f {s} {s'} t i spares (p, g, old, here, blocks, len) =
    let still = Turn-find k p t i spares old in
    elim (Turn-Step t i) [
      | inl same ↦ (p, g, still, ap (λ (w : World). w.dir.heap p) (sym same) ∙ here, blocks, len)
      | inr step ↦
          let after = (Reachable-IsSafe (Turn-IsOrderly t i).reach).sound in
          let (h, there) =
            named_file (settle s').dir s'.world.readers after (name_after k t) p still in
          let kept : SameBytes g ((settle s').dir.heap p) =
            Step-SameBytes p g step (Reachable-IsSafe i.reach) here in
          let (blocks', len') = rw there at kept in
          (p, h, still, there, blocks' ∙ blocks, len' ∙ len)
    ]

pub Undeleted-Persists :
    (f : RamFile) (k : String) {s : Shared} {j : String} {s' : Shared}
    → Undeleted k s j s'
    → IsOrderly s
    → Persists k f s
    → IsOrderly s' × Persists j f s'
Undeleted-Persists f k no_turn i h = (i, h)
Undeleted-Persists f k (next_turn {j} t u spares) i h =
    let (i', h') = Undeleted-Persists f k u i h in
    (Turn-IsOrderly t i', Turn-Persists j f t i' spares h')
