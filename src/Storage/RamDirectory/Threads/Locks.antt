-- ===== src/Storage/RamDirectory/Threads/Locks.antt =====
-- Locks as the threads use them.
use lucanthrope.Base.{refl, ◌<◌, ◌≡◌, String, none, Option-cases, inl, inr, arith}
use lucanthrope.Exception.{ok, aborts, Throws, file_already_exists_exception}
use lucanthrope.Storage.FileMap.{dummy, file, find}
use lucanthrope.Storage.RamDirectory.{obtain_lock, create_output}
use lucanthrope.Storage.RamDirectory.Worlds.{held}
use lucanthrope.Storage.RamDirectory.Lifetime.{Reachable-IsSafe}
use lucanthrope.Storage.RamDirectory.Threads.{Shared, Threads, remove_name}
use lucanthrope.Storage.RamDirectory.Threads.Turns.{Threads-Reachable}

-- Whatever the threads have done in whatever order, if they rename finished files only and the
-- container does not rehash then, a name that is held by a lock or an open output stream is held by
-- this one only; obtainLock then returns no lock, createOutput throws FileAlreadyExistsException,
-- both with the directory as it was, and deleteFile fails its assertion.
pub lock_exclusion :
    (s : Shared) (k : String)
    → Threads s
    → 0 < held k s.world.writers
    → (held k s.world.writers ≡ 1)
      × (obtain_lock k s.world.dir ≡ ok none s.world.dir)
      × Throws (create_output k s.world.dir) file_already_exists_exception (λ d. d ≡ s.world.dir)
      × (remove_name k s.world.dir ≡ aborts)
unfolding obtain_lock create_output remove_name
lock_exclusion s k t h =
    let pending = (Reachable-IsSafe (Threads-Reachable t)).pending k in
    elim (Option-cases (find k s.world.dir.files)) [
      | inl new ↦ absurd (ground (arith, h, pending, new))
      | inr (file p, old) ↦ absurd (ground (arith, h, pending, old))
      | inr (dummy, old) ↦ (
        ground (arith, pending, old),
        ground (arith, old),
        rw (old, Throws) (refl, refl),
        ground (arith, old),
      )
    ]
