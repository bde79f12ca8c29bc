-- ===== src/Tests/Threads.antt =====
-- Runs of the theorems on several threads that use one directory.
use lucanthrope.Base.{Option, none, arith}
use lucanthrope.Storage.RamFile.{RamFile}
use lucanthrope.Base.{ℕ, ◌≡◌, refl, [], ◌∷◌, ◌++◌, some, ◌==◌, if◌then◌else◌}
use lucanthrope.Exception.{ok, aborts, Throws, file_already_exists_exception}
use lucanthrope.Storage.FileMap.{dummy, find, put, erase, pointers}
use lucanthrope.Storage.RamFileIndexOutput.{new_output}
use lucanthrope.Storage.RamDirectory.{
  RamDirectory, new_directory, create_output, commit, obtain_lock, open_input, open_at,
}
use lucanthrope.Storage.RamDirectory.References.{occurrences}
use lucanthrope.Storage.RamDirectory.Worlds.{held, Reachable, created, committed}
use lucanthrope.Storage.RamDirectory.Threads.{
  Shared, Threads, start, turn, whole, removes, settle, deallocate, remove_name, count_at,
}
use lucanthrope.Storage.RamDirectory.Threads.Turns.{Threads-Reachable, deallocate_lem}
use lucanthrope.Storage.RamDirectory.Threads.Locks.{lock_exclusion}
use lucanthrope.Storage.RamDirectory.Threads.Snapshots.{
  While, none_yet, one_more, open_stream_keeps,
}
use lucanthrope.Storage.RamFileIndexInput.{new_input}
use lucanthrope.Tests.Directory.{one_byte, world_a, world_b}

-- One thread has removed the name of the only file and has not deallocated it yet.
abbrev removed : Shared
removed = record {
  world = record {
    dir = record {
      files = [];
      heap = λ q. if 0 == q then some (record one_byte { refs = 0 }) else world_b.dir.heap q;
      next = 1;
    };
    readers = [];
    writers = [];
  };
  doomed = 0 ∷ [];
}

-- Another thread has created a file of that name before the first goes on.
abbrev created_again : Shared
created_again = record removed {
  world = record {
    dir = record (removed.world.dir) { files = ("a", dummy) ∷ [] };
    readers = [];
    writers = "a" ∷ [];
  };
}

removed-Threads : Threads removed
unfolding create_output commit new_directory find put erase remove_name count_at
removed-Threads =
    turn
      (turn (turn start (whole _ world_a (created _ "a" (new_output "a") world_a.dir refl) tt))
        (whole _ world_b (committed world_a "a" [] [] one_byte world_b.dir refl refl) tt))
      (removes _ "a" 0 0 removed.world.dir refl)

created_again-Threads : Threads created_again
unfolding create_output find put
created_again-Threads = turn removed-Threads (
    whole removed created_again.world (created _ "a" (new_output "a") created_again.world.dir refl)
      tt)

Threads-Reachable_example : Reachable (settle created_again)
Threads-Reachable_example = Threads-Reachable created_again-Threads

deallocate_lem_example :
    ((d : RamDirectory) × (deallocate 0 created_again.world.dir ≡ ok tt d))
    × (pointers 0 created_again.world.dir.files ≡ 0)
    × (occurrences 0 created_again.world.readers ≡ 0)
    × (occurrences 0 ([] ++ []) ≡ 0)
deallocate_lem_example = deallocate_lem created_again 0 [] [] created_again-Threads refl

lock_exclusion_example :
    (held "a" created_again.world.writers ≡ 1)
    × (obtain_lock "a" created_again.world.dir ≡ ok none created_again.world.dir)
    × Throws
        (create_output "a" created_again.world.dir)
        file_already_exists_exception
        (λ d. d ≡ created_again.world.dir)
    × (remove_name "a" created_again.world.dir ≡ aborts)
lock_exclusion_example = lock_exclusion created_again "a" created_again-Threads (omega arith)

-- The file "a" is open while its name is removed.
abbrev finished_a : Shared
finished_a = record { world = world_b; doomed = [] }

abbrev heap_with : ℕ → ℕ → Option RamFile
heap_with refs q = if 0 == q then some (record one_byte { refs = refs }) else world_b.dir.heap q

abbrev opened_dir : RamDirectory
opened_dir = record (world_b.dir) { heap = heap_with 2 }

abbrev opened_a : Shared
opened_a = record finished_a { world = record world_b { dir = opened_dir; readers = 0 ∷ [] } }

abbrev removed_dir : RamDirectory
removed_dir = record {
  files = [];
  heap = λ q. if 0 == q then some (record one_byte { refs = 1 }) else heap_with 2 q;
  next = 1;
}

abbrev still_open : Shared
still_open = record opened_a { world = record (opened_a.world) { dir = removed_dir } }

finished_a-Threads : Threads finished_a
unfolding create_output commit new_directory find put
finished_a-Threads =
    turn (turn start (whole _ world_a (created _ "a" (new_output "a") world_a.dir refl) tt))
      (whole _ world_b (committed world_a "a" [] [] one_byte world_b.dir refl refl) tt)

opens_a : open_input "a" world_b.dir ≡ ok (0, new_input (record one_byte { refs = 1 })) opened_dir
unfolding open_input open_at find
opens_a = refl

opened-While : While 0 opened_a still_open
unfolding remove_name count_at find erase
opened-While = one_more [] [] (none_yet opened_a) (removes opened_a "a" 0 1 removed_dir refl) refl

open_stream_keeps_example :
    (g : RamFile) × (still_open.world.dir.heap 0 ≡ some g)
    × (g.blocks ≡ one_byte.blocks)
    × (g.length ≡ 1)
unfolding new_input
open_stream_keeps_example =
    open_stream_keeps finished_a still_open "a" 0 (new_input (record one_byte { refs = 1 }))
      opened_dir finished_a-Threads opens_a opened-While
