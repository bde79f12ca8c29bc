-- ===== src/Tests/Retrieval.antt =====
-- A run of the theorem on a file that is renamed while other threads go on.
use mathlib.Core.Path.{subst}
use lucanthrope.Base.{ℕ, ◌≡◌, refl, [], ◌∷◌, false, none, some, ◌==◌, if◌then◌else◌, arith}
use lucanthrope.Exception.{ok}
use lucanthrope.Storage.FileMap.{dummy, file, find, put, erase}
use lucanthrope.Storage.RamFileIndexOutput.{RamOutput, new_output, close}
use lucanthrope.Storage.RamFileIndexInput.{RamInput}
use lucanthrope.Storage.RamDirectory.{
  RamDirectory, new_directory, create_output, commit, close_output, rename, open_input,
}
use lucanthrope.Storage.RamDirectory.Worlds.{World, created, renamed}
use lucanthrope.Storage.RamDirectory.Threads.{Shared, Threads, start, turn, whole}
use lucanthrope.Storage.RamDirectory.Threads.Persistence.{Undeleted, no_turn, next_turn}
use lucanthrope.Storage.RamDirectory.Threads.Retrieval.{file_persists}
use lucanthrope.Storage.WriteRead.{name-close}
use lucanthrope.Storage.WriteRead.Edits.{run_edits}
use lucanthrope.Storage.WriteRead.Edits.Refined.{Represents, Follows, new_file-Follows}
use lucanthrope.Storage.WriteRead.Edits.Parts.{read_parts, returned}
use lucanthrope.Tests.Directory.{zeros, world_a}
use lucanthrope.Tests.Access.{four_edits, four_bytes, four_edits-text, two_parts}

written_a :
    (o : RamOutput) × (run_edits zeros four_edits (new_output "a") ≡ ok tt o)
    × Represents "a" o four_bytes
written_a =
    returned "a" _ four_bytes
      (subst (Follows "a" _) four_edits-text (new_file-Follows zeros "a" four_edits))

abbrev stream_a : RamOutput
stream_a = written_a.0

abbrev unfinished_a : Shared
unfinished_a = record { world = world_a; doomed = [] }

unfinished_a-Threads : Threads unfinished_a
unfolding create_output new_directory find put
unfinished_a-Threads =
    turn start (whole _ world_a (created _ "a" (new_output "a") world_a.dir refl) tt)

-- The file is finished, renamed, and another one is created under its old name.
abbrev finished_dir : RamDirectory
finished_dir = record {
  files = ("a", file 0) ∷ [];
  heap = λ q. if 0 == q then some (record (close stream_a) { refs = 1 }) else none;
  next = 1;
}

abbrev finished_world : World
finished_world = record { dir = finished_dir; readers = []; writers = [] }

abbrev renamed_dir : RamDirectory
renamed_dir = record finished_dir { files = ("b", file 0) ∷ [] }

abbrev renamed_world : World
renamed_world = record finished_world { dir = renamed_dir }

abbrev again_world : World
again_world = record renamed_world {
  dir = record renamed_dir { files = ("b", file 0) ∷ ("a", dummy) ∷ [] };
  writers = "a" ∷ [];
}

close_a : close_output stream_a world_a.dir ≡ ok tt finished_dir
unfolding close_output commit find put
close_a = rw (name-close stream_a "a" written_a.2.ready.named) refl

again-Undeleted :
    Undeleted "a"
      (record { world = finished_world; doomed = [] })
      "b"
      (record { world = again_world; doomed = [] })
unfolding rename create_output find put erase
again-Undeleted =
    next_turn
      (whole (record { world = renamed_world; doomed = [] }) again_world
        (created renamed_world "a" (new_output "a") again_world.dir refl) tt)
      (next_turn
        (whole (record { world = finished_world; doomed = [] }) renamed_world
          (renamed finished_world "a" "b" 0 (λ m. false) renamed_dir refl refl refl) tt)
        no_turn tt)
      tt

file_persists_example :
    (p : ℕ) × (t u : RamInput) × (d' : RamDirectory) × (open_input "b" again_world.dir
      ≡ ok (p, t) d')
    × (read_parts two_parts t ≡ ok ((8 ∷ 9 ∷ []) ∷ (1 ∷ 7 ∷ 8 ∷ []) ∷ []) u)
file_persists_example =
    file_persists zeros "a" four_edits four_bytes two_parts unfinished_a
      (record { world = again_world; doomed = [] }) "b" [] [] stream_a finished_dir
      unfinished_a-Threads refl four_edits-text (omega arith)
      (omega arith, omega arith, (omega arith, omega arith, tt)) written_a.1 close_a again-Undeleted
