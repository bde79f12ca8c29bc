-- ===== src/Storage/RamDirectory/Worlds.antt =====
-- The clients of a RAMDirectory: the streams and locks that are open, and the calls they make.
pub mod Safety
pub mod Contents
use lucanthrope.Base.{
  ℕ, zero, suc, ◌+◌, ◌-◌, ◌≤◌, ◌<◌, ◌≡◌, ◌≢◌, refl, sym, Bool, true, false, String, List, [], ◌∷◌,
  ◌++◌, Option, none, some, if◌then◌else◌, Option-cases, inl, inr, arith, str_eq, str_eq_iff,
}
use lucanthrope.Exception.{Outcome, ok, Safely}
use lucanthrope.Storage.RamFile.{RamFile}
use lucanthrope.Storage.FileMap.{Slot, Files, dummy, file, find, put, erase}
use lucanthrope.Storage.FileMap.Laws.{IsMap, find-put, find-erase}
use lucanthrope.Storage.RamFileIndexOutput.{RamOutput}
use lucanthrope.Storage.RamFileIndexInput.{RamInput}
use lucanthrope.Storage.RamDirectory.{
  RamDirectory, new_directory, set_files, commit, unref_reader, delete_file, create_output, rename,
  open_input, obtain_lock, release_lock, drop_ref, open_at,
}
use lucanthrope.Storage.RamDirectory.References.{
  IsSound, create_output-IsSound, obtain_lock-IsSound, release_lock-IsSound, commit-IsSound,
  rename-IsSound, new_directory-IsSound,
}
use lucanthrope.Storage.RamDirectory.References.Drops.{
  delete_file-IsSound, unref_reader-IsSound, open_input-IsSound,
}

-- `readers` has the file of each open input stream, `writers` the name of each open output stream
-- and of each lock that is held.
pub record World : Type 0 where
  pub dir : RamDirectory
  pub readers : List ℕ
  pub writers : List String

-- One call that returns. Only a finished file is renamed.
pub data Step : World → World → Type 0 where
  created :
      (w : World) (k : String) (s : RamOutput) (d' : RamDirectory)
      → create_output k w.dir ≡ ok s d'
      → Step w (record w { dir = d'; writers = k ∷ w.writers })
  locked :
      (w : World) (k : String) (d' : RamDirectory)
      → obtain_lock k w.dir ≡ ok (some k) d'
      → Step w (record w { dir = d'; writers = k ∷ w.writers })
  committed :
      (w : World) (k : String) (before after : List String) (f : RamFile) (d' : RamDirectory)
      → w.writers ≡ before ++ k ∷ after
      → commit k f w.dir ≡ ok tt d'
      → Step w (record w { dir = d'; writers = before ++ after })
  released :
      (w : World) (k : String) (before after : List String) (d' : RamDirectory)
      → w.writers ≡ before ++ k ∷ after
      → release_lock k w.dir ≡ ok tt d'
      → Step w (record w { dir = d'; writers = before ++ after })
  renamed :
      (w : World) (src target : String) (p : ℕ) (rehashes : Files → Bool) (d' : RamDirectory)
      → find src w.dir.files ≡ some (file p)
      → rehashes w.dir.files ≡ false
      → rename rehashes src target w.dir ≡ ok tt d'
      → Step w (record w { dir = d' })
  deleted :
      (w : World) (k : String) (d' : RamDirectory)
      → delete_file k w.dir ≡ ok tt d'
      → Step w (record w { dir = d' })
  opened :
      (w : World) (k : String) (p : ℕ) (s : RamInput) (d' : RamDirectory)
      → open_input k w.dir ≡ ok (p, s) d'
      → Step w (record w { dir = d'; readers = p ∷ w.readers })
  closed :
      (w : World) (p : ℕ) (before after : List ℕ) (d' : RamDirectory)
      → w.readers ≡ before ++ p ∷ after
      → unref_reader p w.dir ≡ ok tt d'
      → Step w (record w { dir = d'; readers = before ++ after })

pub data Reachable : World → Type 0 where
  start : Reachable (record { dir = new_directory; readers = []; writers = [] })
  after_step : {w w' : World} → Reachable w → Step w w' → Reachable w'

abbrev pub held : String → List String → ℕ
held k [] = 0
held k (j ∷ ws) = (if str_eq j k then 1 else 0) + held k ws

abbrev pub unfinished : Option Slot → ℕ
unfinished none = 0
unfinished (some dummy) = 1
unfinished (some (file p)) = 0

-- The names that point to `dummy_file` are those of the open output streams and the locks.
pub record IsSafe (w : World) : Type 0 where
  pub sound : IsSound w.dir w.readers
  pub pending : (k : String) → held k w.writers ≡ unfinished (find k w.dir.files)
