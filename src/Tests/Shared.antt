-- ===== src/Tests/Shared.antt =====
-- Runs of the theorems on the directory as its callers see it, and on its end.
use lucanthrope.Base.{ℕ, ◌≡◌, refl, false, [], none, some, str_eq, if◌then◌else◌}
use lucanthrope.Exception.{ok}
use lucanthrope.Storage.Directory.{Call, answered}
use lucanthrope.Storage.RamDirectory.{RamDirectory, destroy}
use lucanthrope.Storage.RamDirectory.Worlds.{World}
use lucanthrope.Storage.RamDirectory.Refinement.{perform, view, Agrees}
use lucanthrope.Storage.RamDirectory.Refinement.Calls.{calls_refine}
use lucanthrope.Storage.RamDirectory.Shutdown.{Ends, Leads, all_ended, shut_down}
use lucanthrope.Tests.Directory.{one_byte, world_e, world_e-Reachable}

-- The finished file "a", which is open for reading, gets the name "c".
calls_refine_example :
    Agrees
      (perform (λ m. false) (Call.rename "a" "c") world_e.dir)
      (answered (Call.rename "a" "c") (view world_e.dir))
calls_refine_example =
    calls_refine (λ m. false) (Call.rename "a" "c") world_e world_e-Reachable refl

-- The lock is released, and the stream for "b" hands over a file of one byte.
abbrev ends : Ends
ends k = if str_eq k "b" then some (one_byte.blocks, 1) else none

shut_down_example :
    (w : World) × Leads ends world_e w
    × (w.readers ≡ [])
    × (w.writers ≡ [])
    × (view w.dir ≡ all_ended ends (view world_e.dir))
    × ((d : RamDirectory) × (destroy w.dir ≡ ok tt d) × ((p : ℕ) → d.heap p ≡ none))
shut_down_example = shut_down world_e ends world_e-Reachable
