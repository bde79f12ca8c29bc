-- ===== src/Storage/RamDirectory/Shutdown.antt =====
-- The end of a directory: its clients can always let go of what they hold.
use mathlib.Core.Path.{subst, fun_ext}
use lucanthrope.Base.{
  ℕ, ◌+◌, ◌==◌, if◌then◌else◌, ◌∙◌, ◌≡◌, refl, sym, ap, String, List, [], ◌∷◌, ◌++◌, Option, none,
  some, arith, str_eq, str_eq_iff, Option-cases, Bool-cases, inl, inr, false,
}
use lucanthrope.Exception.{ok}
use lucanthrope.Storage.RamFile.{RamFile, Block, new_file}
use lucanthrope.Storage.FileMap.{dummy, file, find, put, erase}
use lucanthrope.Storage.Directory
use lucanthrope.Storage.Directory.{Entry, unfinished, finished, Listing, change}
use lucanthrope.Storage.RamDirectory.{
  RamDirectory, set_files, commit, release_lock, destroy, finish_writing, close_input, close_lock,
}
use lucanthrope.Storage.RamDirectory.Worlds.{
  World, committed, released, closed, Reachable, after_step,
}
use lucanthrope.Storage.RamDirectory.Worlds.Safety.{writer_lem}
use lucanthrope.Storage.RamDirectory.Lifetime.{Reachable-IsSafe, close_input_lem, destroy_lem}
use lucanthrope.Storage.RamDirectory.Refinement.{view, perform, Agrees}
use lucanthrope.Storage.RamDirectory.Refinement.View.{view-erase, view-commit}
use lucanthrope.Storage.RamDirectory.Refinement.Calls.{calls_refine}

-- What becomes of a name that is held: the blocks and the length that the destructor of its output
-- stream hands over, or none if it is the name of a lock.
abbrev pub Ends : Type 0
Ends = String → Option (List Block × ℕ)

-- The file that is handed over.
abbrev pub handed_over : String → List Block × ℕ → RamFile
handed_over k (blocks, len) = record (new_file k) { blocks = blocks; length = len }

-- One call of the destructor of an input stream, of an output stream, or of a lock.
pub data Ending (ends : Ends) : World → World → Type 0 where
  input_ends :
      (w : World) (p : ℕ) (before after : List ℕ) (d : RamDirectory)
      → w.readers ≡ before ++ p ∷ after
      → close_input p w.dir ≡ ok tt d
      → Ending ends w (record w { dir = d; readers = before ++ after })
  output_ends :
      (w : World) (k : String) (e : List Block × ℕ) (before after : List String) (d : RamDirectory)
      → ends k ≡ some e
      → w.writers ≡ before ++ k ∷ after
      → finish_writing (handed_over k e) w.dir ≡ ok tt d
      → Ending ends w (record w { dir = d; writers = before ++ after })
  lock_ends :
      (w : World) (k : String) (before after : List String) (d : RamDirectory)
      → ends k ≡ none
      → w.writers ≡ before ++ k ∷ after
      → close_lock k w.dir ≡ ok tt d
      → Ending ends w (record w { dir = d; writers = before ++ after })

-- Calls of destructors, one after another.
pub data Leads (ends : Ends) (w : World) : World → Type 0 where
  here : Leads ends w w
  further : {v u : World} → Leads ends w v → Ending ends v u → Leads ends w u

-- An unfinished file is what its stream handed over, and a lock is gone.
abbrev pub ended : Option (List Block × ℕ) → Option Entry → Option Entry
ended none (some unfinished) = none
ended (some (blocks, len)) (some unfinished) = some (finished blocks len)
ended e other = other

-- The listing after everything that is open has ended.
abbrev pub all_ended : Ends → Listing → Listing
all_ended ends a k = ended (ends k) (a k)

commit-ok :
    (k : String) (f : RamFile) (d : RamDirectory)
    → find k d.files ≡ some dummy
    → commit k f d
      ≡ ok tt (record d {
        files = put k (file d.next) d.files;
        heap = λ q. if d.next == q then some (record f { refs = 1 }) else d.heap q;
        next = d.next + 1;
      })
unfolding commit
commit-ok k f d old = ground (arith, old)

release_lock-ok :
    (k : String) (d : RamDirectory)
    → find k d.files ≡ some dummy
    → release_lock k d ≡ ok tt (set_files (erase k d.files) d)
unfolding release_lock
release_lock-ok k d old = ground (arith, old)

-- A name that has ended shows what it ends as.
change-ended :
    (ends : Ends) (k : String) (a : Listing) (e : Option Entry)
    → ended (ends k) e ≡ ended (ends k) (a k)
    → all_ended ends (change a k e) ≡ all_ended ends a
change-ended ends k a e same = fun_ext λ j. elim (Bool-cases (str_eq k j)) [
  | inl hit ↦
      let one : k ≡ j = ground (arith, hit, str_eq_iff k j) in
      rw hit (subst (λ j. ended (ends j) e ≡ ended (ends j) (a j)) one same)
  | inr other ↦ rw other refl
]

-- A world that the endings lead to, in which what is still open ends as what was open.
abbrev Goes : Ends → World → (World → Type 0) → Type 0
Goes ends w P =
    (v : World) × Leads ends w v
    × Reachable v
    × (all_ended ends (view v.dir) ≡ all_ended ends (view w.dir))
    × P v

close_view :
    (w : World) (p : ℕ) (before after : List ℕ) (d : RamDirectory)
    → Reachable w
    → w.readers ≡ before ++ p ∷ after
    → close_input p w.dir ≡ ok tt d
    → view d ≡ view w.dir
unfolding perform Directory.answered Directory.promised Directory.departs
close_view w p before after d r opens e =
    let agrees =
      calls_refine (λ m. false) (Directory.Call.close_input p) w r (before, after, opens) in
    (rw (perform, e, Agrees) at agrees).1

close_readers :
    (ends : Ends) (w : World) (readers : List ℕ) (v : World)
    → Leads ends w v
    → Reachable v
    → all_ended ends (view v.dir) ≡ all_ended ends (view w.dir)
    → v.readers ≡ readers
    → Goes ends w (λ u. u.readers ≡ [])
close_readers ends w [] v l r same e = (v, l, r, same, e)
close_readers ends w (p ∷ readers) v l r same e =
    let (_, (d, done)) = close_input_lem v p [] readers r e in
    let seen = close_view v p [] readers d r e done in
    close_readers ends w readers (record v { dir = d; readers = readers })
      (further l (input_ends v p [] readers d e done))
      (after_step r (closed v p [] readers d e done)) (ap (all_ended ends) seen ∙ same) refl

close_writers :
    (ends : Ends) (w : World) (writers : List String) (v : World)
    → Leads ends w v
    → Reachable v
    → all_ended ends (view v.dir) ≡ all_ended ends (view w.dir)
    → v.readers ≡ []
    → v.writers ≡ writers
    → Goes ends w (λ u. (u.readers ≡ []) × (u.writers ≡ []))
close_writers ends w [] v l r same quiet e = (v, l, r, same, (quiet, e))
close_writers ends w (k ∷ writers) v l r same quiet e =
    let i = Reachable-IsSafe r in
    let old = writer_lem v k [] writers i e in
    let shown : view v.dir k ≡ some unfinished = rw old refl in
    elim (Option-cases (ends k)) [
      | inl lock ↦
          let done = release_lock-ok k v.dir old in
          let kept = change-ended ends k (view v.dir) none (rw (lock, shown) refl) in
          close_writers ends w writers _ (further l (lock_ends v k [] writers _ lock e done))
            (after_step r (released v k [] writers _ e done))
            (ap (all_ended ends) (view-erase k v.dir i.sound.is_map) ∙ kept ∙ same) quiet refl
      | inr ((blocks, len), output) ↦
          let f : RamFile = handed_over k (blocks, len) in
          let done = commit-ok k f v.dir old in
          let kept =
            change-ended ends k (view v.dir) (some (finished blocks len))
              (rw (output, shown) refl) in
          close_writers ends w writers _
            (further l (output_ends v k (blocks, len) [] writers _ output e done))
            (after_step r (committed v k [] writers f _ e done))
            (ap (all_ended ends) (view-commit k f v.dir v.readers i.sound) ∙ kept ∙ same) quiet refl
    ]

ended_missing : (e : Option (List Block × ℕ)) → ended e none ≡ none
ended_missing none = refl
ended_missing (some (blocks, len)) = refl

ended_finished :
    (e : Option (List Block × ℕ)) (blocks : List Block) (len : ℕ)
    → ended e (some (finished blocks len)) ≡ some (finished blocks len)
ended_finished none blocks len = refl
ended_finished (some (b, n)) blocks len = refl

-- Nothing is unfinished where no name is held.
none_held :
    (ends : Ends) (v : World)
    → Reachable v
    → v.writers ≡ []
    → all_ended ends (view v.dir) ≡ view v.dir
none_held ends v r quiet = fun_ext λ k.
    let count = rw quiet at (Reachable-IsSafe r).pending k in
    elim (Option-cases (find k v.dir.files)) [
      | inl new ↦ rw new (ended_missing (ends k))
      | inr (dummy, old) ↦ absurd (ground (arith, old, count))
      | inr (file p, old) ↦ elim (Option-cases (v.dir.heap p)) [
        | inl gone ↦ rw (old, gone) (ended_missing (ends k))
        | inr (f, there) ↦ rw (old, there) (ended_finished (ends k) f.blocks f.length)
      ]
    ]

-- From every reachable world, whatever `ends` says of each name that is held, the blocks and the length
-- that its output stream hands over or that it is the name of a lock, the destructors of all streams
-- and locks can be called, and all return; in the world to which they lead nothing is open, each
-- unfinished file is finished with just these blocks and this length, each lock is gone, and any other
-- file is as it was. There the destructor of the directory returns and no file is left.
pub shut_down :
    (w : World) (ends : Ends)
    → Reachable w
    → (v : World) × Leads ends w v
      × (v.readers ≡ [])
      × (v.writers ≡ [])
      × (view v.dir ≡ all_ended ends (view w.dir))
      × ((d : RamDirectory) × (destroy v.dir ≡ ok tt d) × ((p : ℕ) → d.heap p ≡ none))
shut_down w ends r =
    let (v, l₁, r₁, same₁, no_readers) = close_readers ends w w.readers w here r refl refl in
    let (u, l₂, r₂, same₂, (quiet, no_writers)) =
      close_writers ends w v.writers v l₁ r₁ same₁ no_readers refl in
    (u, l₂, quiet, no_writers, sym (none_held ends u r₂ no_writers) ∙ same₂, destroy_lem u r₂ quiet)
