-- ===== src/Storage/RamDirectory/Threads.antt =====
-- RAMDirectory used by several threads. deleteFile and unrefReader give the mutex up before they
-- deallocate a file, so other calls come between.
pub mod Settled
pub mod Orderly
pub mod Wholes
pub mod Releases
pub mod Turns
pub mod Snapshots
pub mod Locks
pub mod Persistence
pub mod Retrieval
use lucanthrope.Base.{
  ℕ, ◌-◌, ◌≡◌, Bool, true, false, String, List, [], ◌∷◌, ◌++◌, Option, none, some, ◌==◌,
  if◌then◌else◌,
}
use lucanthrope.Exception.{Outcome, ok, aborts, undefined}
use lucanthrope.Storage.RamFile.{RamFile}
use lucanthrope.Storage.FileMap.{dummy, file, find, erase}
use lucanthrope.Storage.RamDirectory.{RamDirectory, Dir, new_directory, set_heap, set_files}
use lucanthrope.Storage.RamDirectory.References.{occurrences}
use lucanthrope.Storage.RamDirectory.Worlds.{
  World, Step, created, locked, committed, released, renamed, deleted, opened, closed,
}

-- `mu_.lock(); int c = --file->refs_; mu_.unlock();`
unfoldable pub count_at : ℕ → Option RamFile → Dir ℕ
count_at p none d = undefined
count_at p (some f) d = ok (f.refs - 1) (set_heap p (some (record f { refs = f.refs - 1 })) d)

pub count_down : ℕ → Dir ℕ
unfolding count_at
count_down p d = count_at p (d.heap p) d

-- The part of `deleteFile` under the mutex: the file and what is left of its count, if the name is
-- there.
unfoldable pub remove_name : String → Dir (Option (ℕ × ℕ))
unfolding count_at
remove_name fname d = elim (find fname d.files) [
  | none ↦ ok none d
  | some dummy ↦ aborts
  | some (file p) ↦ elim (count_at p (d.heap p) (set_files (erase fname d.files) d)) [
    | Outcome.ok c d' ↦ ok (some (p, c)) d'
    | Outcome.throws e d' ↦ Outcome.throws e d'
    | Outcome.aborts ↦ aborts
    | Outcome.undefined ↦ undefined
    | Outcome.diverges ↦ Outcome.diverges
  ]
]

-- `delete file`, outside the mutex, with the assertion of the destructor.
pub free_at : ℕ → Option RamFile → Dir (Unit {0})
free_at p none d = undefined
free_at p (some f) d = if f.refs == 0 then ok tt (set_heap p none d) else aborts

pub deallocate : ℕ → Dir (Unit {0})
unfolding free_at
deallocate p d = free_at p (d.heap p) d

-- `doomed` are the files of which a thread has seen the count reach 0, and which it has not
-- deallocated yet.
pub record Shared : Type 0 where
  pub world : World
  pub doomed : List ℕ

-- `if (!c) delete file;`
abbrev pub doom : ℕ → ℕ → List ℕ → List ℕ
doom c p doomed = if c == 0 then p ∷ doomed else doomed

-- The calls that hold the mutex from beginning to end.
abbrev pub IsWhole : {w w' : World} → Step w w' → Type 0
IsWhole (deleted w k d' e) = ⊥
IsWhole (closed w p before after d' opens e) = ⊥
IsWhole other = Unit {0}

-- What one of the threads does next.
pub data Turn : Shared → Shared → Type 0 where
  whole :
      (s : Shared) (w' : World) (step : Step s.world w')
      → IsWhole step
      → Turn s (record s { world = w' })
  closes :
      (s : Shared) (p c : ℕ) (before after : List ℕ) (d' : RamDirectory)
      → s.world.readers ≡ before ++ p ∷ after
      → count_down p s.world.dir ≡ ok c d'
      → Turn s (record {
        world = record (s.world) { dir = d'; readers = before ++ after };
        doomed = doom c p s.doomed;
      })
  removes :
      (s : Shared) (k : String) (p c : ℕ) (d' : RamDirectory)
      → remove_name k s.world.dir ≡ ok (some (p, c)) d'
      → Turn s (record { world = record (s.world) { dir = d' }; doomed = doom c p s.doomed })
  frees :
      (s : Shared) (p : ℕ) (before after : List ℕ) (d' : RamDirectory)
      → s.doomed ≡ before ++ p ∷ after
      → deallocate p s.world.dir ≡ ok tt d'
      → Turn s (record { world = record (s.world) { dir = d' }; doomed = before ++ after })

-- The turns of the threads in any order.
pub data Threads : Shared → Type 0 where
  start :
      Threads
        (record { world = record { dir = new_directory; readers = []; writers = [] }; doomed = [] })
  turn : {s s' : Shared} → Threads s → Turn s s' → Threads s'

-- The directory in which the doomed files are gone already.
abbrev pub settled_dir : List ℕ → RamDirectory → RamDirectory
settled_dir doomed d = record d { heap = λ p. if occurrences p doomed == 0 then d.heap p else none }

abbrev pub settle : Shared → World
settle s = record (s.world) { dir = settled_dir s.doomed s.world.dir }
