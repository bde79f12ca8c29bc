-- ===== src/Storage/RamDirectory/Refinement.antt =====
-- RAMDirectory as an implementation of the interface Directory, and how it looks from outside.
pub mod View
pub mod Calls
use lucanthrope.Base.{ℕ, ◌≡◌, Bool, true, false, String, List, ◌++◌, ◌∷◌, Option, none, some}
use lucanthrope.Exception.{
  Outcome, ok, throws, aborts, undefined, diverges, Action, pure, ◌>>=◌, ◌>>◌,
}
use lucanthrope.Storage.RamFile.{RamFile}
use lucanthrope.Storage.FileMap.{Slot, Files, dummy, file, find}
use lucanthrope.Storage.Directory.{
  Directory, Entry, unfinished, finished, Listing, Call, list_all, create_output, delete_file,
  open_input, obtain_lock, file_exists, file_length, rename, close_output, close_input, close_lock,
  Answer, done, flag, listed, size, stream, threw, failed,
}
use lucanthrope.Storage.RamFileIndexOutput.{RamOutput}
use lucanthrope.Storage.RamFileIndexInput.{RamInput}
use lucanthrope.Storage.RamDirectory
use lucanthrope.Storage.RamDirectory.{RamDirectory, Dir}
use lucanthrope.Storage.RamDirectory.Worlds.{World, held}

-- `RAMDirectory : Directory`; an input stream stands with the address of its file.
abbrev pub ram_directory : (Files → Bool) → Directory RamDirectory RamOutput (ℕ × RamInput) String
ram_directory rehashes = record {
  list_all = RamDirectory.list_all;
  delete_file = RamDirectory.delete_file;
  file_length = RamDirectory.file_length;
  create_output = RamDirectory.create_output;
  rename = RamDirectory.rename rehashes;
  open_input = RamDirectory.open_input;
  obtain_lock = RamDirectory.obtain_lock;
  file_exists = RamDirectory.file_exists;
  delete_segment = RamDirectory.delete_segment;
}

-- A call, and what its caller sees of the result.
unfoldable pub perform : (Files → Bool) → Call → Dir Answer
perform r list_all = (ram_directory r).list_all >>= λ ns. pure (listed (λ k. held k ns))
perform r (create_output k) = (ram_directory r).create_output k >> pure done
perform r (delete_file k) = (ram_directory r).delete_file k >> pure done
perform r (open_input k) =
    (ram_directory r).open_input k >>= λ s. pure (stream s.1.file.blocks s.1.file.length)
perform r (obtain_lock k) = (ram_directory r).obtain_lock k >>= λ l.
    pure (flag (elim l [ none ↦ false | some name ↦ true ]))
perform r (file_exists k) = (ram_directory r).file_exists k >>= λ b. pure (flag b)
perform r (file_length k) = (ram_directory r).file_length k >>= λ n. pure (size n)
perform r (rename src target) = (ram_directory r).rename src target >> pure done
perform r (close_output f) = RamDirectory.finish_writing f >> pure done
perform r (close_input p) = RamDirectory.close_input p >> pure done
perform r (close_lock k) = RamDirectory.close_lock k >> pure done

abbrev pub contents_of : Option RamFile → Option Entry
contents_of none = none
contents_of (some f) = some (finished f.blocks f.length)

abbrev pub entry_of : (ℕ → Option RamFile) → Option Slot → Option Entry
entry_of heap none = none
entry_of heap (some dummy) = some unfinished
entry_of heap (some (file p)) = contents_of (heap p)

-- The names of the directory with what they stand for.
abbrev pub view : RamDirectory → Listing
view d k = entry_of d.heap (find k d.files)

-- The outcome is the answer, and the directory then looks like the listing.
abbrev pub Agrees : Outcome RamDirectory Answer → Answer × Listing → Type 0
Agrees (ok x d) (y, a) = (x ≡ y) × (view d ≡ a)
Agrees (throws e d) (y, a) = (threw e.code ≡ y) × (view d ≡ a)
Agrees aborts (y, a) = failed ≡ y
Agrees undefined (y, a) = ⊥
Agrees diverges (y, a) = ⊥

-- Only an input stream that is open is closed, and the container does not rehash in rename.
abbrev pub Allowed : (Files → Bool) → Call → World → Type 0
Allowed r (close_input p) w =
    (before : List ℕ) × (after : List ℕ) × (w.readers ≡ before ++ p ∷ after)
Allowed r (rename src target) w = r w.dir.files ≡ false
Allowed r other w = Unit {0}
