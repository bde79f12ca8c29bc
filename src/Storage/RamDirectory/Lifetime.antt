-- ===== src/Storage/RamDirectory/Lifetime.antt =====
-- Lives of files, streams and locks: what the directory's callers can rely on.
use lucanthrope.Base.{
  ℕ, ◌+◌, ◌≤◌, ◌≡◌, ◌≢◌, refl, Bool, true, false, String, List, [], ◌∷◌, ◌++◌, none, some, ◌==◌,
  if◌then◌else◌, Option-cases, inl, inr, arith, str_eq_iff,
}
use lucanthrope.Exception.{ok, Safely}
use lucanthrope.Storage.RamFile.{RamFile}
use lucanthrope.Storage.FileMap.{Files, dummy, file, find, put, erase, pointers}
use lucanthrope.Storage.FileMap.Laws.{find-put, find-erase}
use lucanthrope.Storage.RamFileIndexOutput.{RamOutput, close}
use lucanthrope.Storage.RamDirectory.{
  RamDirectory, new_directory, set_heap, set_files, commit, unref_reader, delete_file,
  create_output, rename, open_input, obtain_lock, release_lock, drop_ref, close_output, close_input,
  close_lock, file_length, length_at, file_exists, destroy, destroy_loop,
}
use lucanthrope.Storage.RamDirectory.References.{
  IsSound, IsLive, refs_at, create_output-IsSound, obtain_lock-IsSound, rename-IsSound,
  new_directory-IsSound,
}
use lucanthrope.Storage.RamDirectory.References.Drops.{
  delete_file-IsSound, unref_reader-IsSound, open_input-IsSound,
}
use lucanthrope.Storage.RamDirectory.Worlds.{World, Step, Reachable, start, after_step, IsSafe}
use lucanthrope.Storage.RamDirectory.Worlds.Contents.{SameBytes, Step-SameBytes}
use lucanthrope.Storage.RamDirectory.Worlds.Safety.{Step-IsSafe, writer_lem}

new_world-IsSafe : IsSafe (record { dir = new_directory; readers = []; writers = [] })
unfolding new_directory find
new_world-IsSafe = record { sound = new_directory-IsSound; pending = λ k. refl }

-- In every world that the clients can reach, if they rename finished files only and the container
-- does not rehash then, the reference count of each file is the number of names and open input
-- streams that refer to it, a file is deallocated just when there are none, and the names that point
-- to `dummy_file` are those of the open output streams and held locks.
pub Reachable-IsSafe : {w : World} → Reachable w → IsSafe w
Reachable-IsSafe start = new_world-IsSafe
Reachable-IsSafe (after_step r s) = Step-IsSafe s (Reachable-IsSafe r)

-- In a reachable world, with a container that does not rehash, createOutput, obtainLock, deleteFile,
-- openInput and rename never run into undefined behaviour; the reference counts are right again
-- when they return, and where they throw the directory is as it was.
pub calls_are_safe :
    (w : World) (fname target : String) (rehashes : Files → Bool)
    → Reachable w
    → rehashes w.dir.files ≡ false
    → Safely (create_output fname w.dir) (λ s d. IsSound d w.readers) (λ d. d ≡ w.dir)
      × Safely (obtain_lock fname w.dir) (λ l d. IsSound d w.readers) (λ d. d ≡ w.dir)
      × Safely (delete_file fname w.dir) (λ u d. IsSound d w.readers) (λ d. d ≡ w.dir)
      × Safely (open_input fname w.dir) (λ s d. IsSound d (s.0 ∷ w.readers)) (λ d. d ≡ w.dir)
      × Safely (rename rehashes fname target w.dir) (λ u d. IsSound d w.readers) (λ d. d ≡ w.dir)
calls_are_safe w fname target rehashes r still =
    let i = (Reachable-IsSafe r).sound in
    (
      create_output-IsSound fname w.dir w.readers i,
      obtain_lock-IsSound fname w.dir w.readers i,
      delete_file-IsSound fname w.dir w.readers i,
      open_input-IsSound fname w.dir w.readers i,
      rename-IsSound rehashes fname target w.dir w.readers i still,
    )

-- In a reachable world the file of an open input stream is there, and the stream's destructor
-- returns.
pub close_input_lem :
    (w : World) (p : ℕ) (before after : List ℕ)
    → Reachable w
    → w.readers ≡ before ++ p ∷ after
    → ((f : RamFile) × (w.dir.heap p ≡ some f))
      × ((d : RamDirectory) × (close_input p w.dir ≡ ok tt d))
unfolding unref_reader drop_ref
close_input_lem w p before after r opens =
    let (d, e, _, _) =
      unref_reader-IsSound p w.dir before after (rw opens at (Reachable-IsSafe r).sound) in
    (
      elim (Option-cases (w.dir.heap p)) [
        | inl gone ↦ absurd (ground (arith, gone, e))
        | inr here ↦ here
      ],
      (d, e),
    )

-- After any call of a client in a reachable world that returns, the file of an open input stream is
-- there, with the blocks and the length that it had before the call.
pub reader_keeps_file :
    (w w' : World) (p : ℕ) (f : RamFile) (before after : List ℕ)
    → Reachable w
    → Step w w'
    → w.dir.heap p ≡ some f
    → w'.readers ≡ before ++ p ∷ after
    → (g : RamFile) × (w'.dir.heap p ≡ some g) × (g.blocks ≡ f.blocks) × (g.length ≡ f.length)
reader_keeps_file w w' p f before after r step here opens =
    let ((g, there), _) = close_input_lem w' p before after (after_step r step) opens in
    let kept : SameBytes f (w'.dir.heap p) = Step-SameBytes p f step (Reachable-IsSafe r) here in
    let (blocks, len) = rw there at kept in (g, there, blocks, len)

-- What `commit` leaves behind.
abbrev committed_state : RamFile → RamDirectory → RamDirectory
committed_state f d = record d {
  files = put f.name (file d.next) d.files;
  heap = λ q. if d.next == q then some (record f { refs = 1 }) else d.heap q;
  next = d.next + 1;
}

-- In a reachable world the destructor of an open output stream never fails its assertion: it
-- leaves the finished file behind under its name, with its length, and any other name is as it
-- was.
pub close_output_lem :
    (w : World) (s : RamOutput) (before after : List String) (other : String)
    → Reachable w
    → w.writers ≡ before ++ (close s).name ∷ after
    → (close s).name ≢ other
    → (d : RamDirectory) × (close_output s w.dir ≡ ok tt d)
      × (file_length (close s).name d ≡ ok (close s).length d)
      × (find other d.files ≡ find other w.dir.files)
unfolding close_output commit file_length length_at
close_output_lem w s before after other r opens differ =
    let k = (close s).name in
    let old = writer_lem w k before after (Reachable-IsSafe r) opens in
    let there : find k (put k (file w.dir.next) w.dir.files) ≡ some (file w.dir.next) =
      ground (arith, find-put k k (file w.dir.next) w.dir.files, str_eq_iff k k) in
    (
      committed_state (close s) w.dir,
      ground (arith, old),
      ground (arith, there),
      ground (arith, find-put k other (file w.dir.next) w.dir.files, str_eq_iff k other),
    )

-- In a reachable world a held lock is released without a warning or a failed assertion, and its
-- name is gone then.
pub close_lock_lem :
    (w : World) (k : String) (before after : List String)
    → Reachable w
    → w.writers ≡ before ++ k ∷ after
    → (d : RamDirectory) × (close_lock k w.dir ≡ ok tt d)
      × (file_exists k w.dir ≡ ok true w.dir)
      × (file_exists k d ≡ ok false d)
unfolding release_lock file_exists
close_lock_lem w k before after r opens =
    let i = Reachable-IsSafe r in
    let old = writer_lem w k before after i opens in
    (
      set_files (erase k w.dir.files) w.dir,
      ground (arith, old),
      ground (arith, old),
      ground (arith, find-erase k k w.dir.files i.sound.is_map, str_eq_iff k k),
    )

destroy_loop_lem :
    (m : Files) (d : RamDirectory)
    → ((p : ℕ) → refs_at (d.heap p) ≡ pointers p m)
    → ((p : ℕ) → pointers p m ≤ 1)
    → ((p : ℕ) → IsLive (d.heap p))
    → (d' : RamDirectory) × (destroy_loop m d ≡ ok tt d') × ((p : ℕ) → d'.heap p ≡ none)
unfolding destroy_loop pointers
destroy_loop_lem [] d c one l = (
  d,
  refl,
  λ p. elim (Option-cases (d.heap p)) [
    | inl gone ↦ gone
    | inr (f, here) ↦ absurd (ground (arith, here, c p, l p))
  ],
)
destroy_loop_lem ((k, dummy) ∷ m) d c one l =
    destroy_loop_lem m d (λ p. omega (arith, c p)) (λ p. omega (arith, one p)) l
destroy_loop_lem ((k, file p) ∷ m) d c one l = elim (Option-cases (d.heap p)) [
  | inl gone ↦ absurd (ground (arith, gone, c p))
  | inr (f, here) ↦
      let last : f.refs ≡ 1 = ground (arith, here, c p, one p) in
      let (d', e, none_left) =
        destroy_loop_lem m (set_heap p none d)
          (λ q. ground (arith, c q, one q, c p, one p, here, last)) (λ q. ground (arith, one q))
          (λ q. ground (arith, l q)) in
      (d', ground (arith, here, last, e), none_left)
]

-- In a reachable world without open input streams the directory's destructor returns, and no
-- file is left.
pub destroy_lem :
    (w : World)
    → Reachable w
    → w.readers ≡ []
    → (d : RamDirectory) × (destroy w.dir ≡ ok tt d) × ((p : ℕ) → d.heap p ≡ none)
unfolding destroy
destroy_lem w r closed_all =
    let i = rw closed_all at (Reachable-IsSafe r).sound in
    destroy_loop_lem w.dir.files w.dir (λ p. omega (arith, i.counted p)) i.single i.live
