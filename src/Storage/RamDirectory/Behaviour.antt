-- ===== src/Storage/RamDirectory/Behaviour.antt =====
-- Names, locks, deletion and renaming: what each call does to the directory on each branch.
pub mod Segments
pub mod Listing
use lucanthrope.Base.{
  Bool-cases, ◌⊎◌, ◌≡◌, ◌≢◌, refl, Bool, true, false, String, [], ◌∷◌, none, some, if◌then◌else◌,
  Option-cases, inl, inr, arith, str_eq_iff, starts_with,
}
use lucanthrope.Exception.{
  Outcome, ok, aborts, undefined, Returns, Throws, file_not_found_exception,
  file_already_exists_exception,
}
use lucanthrope.Storage.FileMap.{Slot, Files, dummy, file, find, put, erase, names}
use lucanthrope.Storage.FileMap.Laws.{IsMap, Fresh-find, find-put, find-erase, put-IsMap}
use lucanthrope.Storage.RamFileIndexOutput.{RamOutput, close}
use lucanthrope.Storage.RamDirectory.{
  RamDirectory, set_files, commit, delete_file, create_output, rename, open_input, obtain_lock,
  release_lock, close_output, close_lock, file_length, file_exists, list_all, delete_segment,
  segment_loop,
}
use lucanthrope.Storage.RamDirectory.Worlds.{held}

abbrev pub Missing : {A : Type 0} → RamDirectory → Outcome RamDirectory A → Type 0
Missing d o = Throws o file_not_found_exception (λ d'. d' ≡ d)

-- For a name that is not in the directory fileExists says so, deleteFile, fileLength, openInput
-- and rename throw FileNotFoundException and change nothing, and createOutput and obtainLock
-- return and register the name.
pub missing_name_lem :
    (k target : String) (rehashes : Files → Bool) (d : RamDirectory)
    → find k d.files ≡ none
    → (file_exists k d ≡ ok false d)
      × Missing d (delete_file k d)
      × Missing d (file_length k d)
      × Missing d (open_input k d)
      × Missing d (rename rehashes k target d)
      × Returns (create_output k d) (λ s d'. file_exists k d' ≡ ok true d')
      × Returns (obtain_lock k d) (λ l d'. (l ≡ some k) × (file_exists k d' ≡ ok true d'))
unfolding file_exists delete_file file_length open_input rename create_output obtain_lock
missing_name_lem k target rehashes d missing =
    let there : find k (put k dummy d.files) ≡ some dummy =
      ground (arith, find-put k k dummy d.files, str_eq_iff k k) in
    (
      ground (arith, missing),
      rw (missing, Throws) (refl, refl),
      rw (missing, Throws) (refl, refl),
      rw (missing, Throws) (refl, refl),
      rw (missing, Throws) (refl, refl),
      rw (missing, Returns) (ground (arith, there)),
      rw (missing, Returns) (refl, ground (arith, there)),
    )

-- For a name that is in the directory createOutput, and rename to it from another one that is
-- there, throw FileAlreadyExistsException and change nothing, obtainLock returns the null pointer,
-- and fileExists says that it is there.
pub taken_name_lem :
    (k src : String) (u v : Slot) (rehashes : Files → Bool) (d : RamDirectory)
    → find k d.files ≡ some u
    → find src d.files ≡ some v
    → (file_exists k d ≡ ok true d)
      × Throws (create_output k d) file_already_exists_exception (λ d'. d' ≡ d)
      × Throws (rename rehashes src k d) file_already_exists_exception (λ d'. d' ≡ d)
      × (obtain_lock k d ≡ ok none d)
unfolding file_exists rename create_output obtain_lock
taken_name_lem k src u v rehashes d taken old = (
  ground (arith, taken),
  rw (taken, Throws) (refl, refl),
  rw (old, taken, Throws) (refl, refl),
  ground (arith, taken),
)

-- In a directory where no name stands twice, once a lock is obtained nobody else obtains it, and
-- once it is released it can be obtained again.
pub lock_lem :
    (k : String) (d d₁ : RamDirectory)
    → IsMap d.files
    → obtain_lock k d ≡ ok (some k) d₁
    → (obtain_lock k d₁ ≡ ok none d₁)
      × ((d₂ : RamDirectory) × (close_lock k d₁ ≡ ok tt d₂)
          × Returns (obtain_lock k d₂) (λ l d₃. l ≡ some k))
unfolding obtain_lock release_lock
lock_lem k d d₁ m e =
    let new : find k d.files ≡ none = ground (arith, e) in
    let same : d₁.files ≡ put k dummy d.files = ground (arith, e) in
    let there : find k d₁.files ≡ some dummy =
      rw same (ground (arith, find-put k k dummy d.files, str_eq_iff k k)) in
    let gone : find k (erase k d₁.files) ≡ none = rw same (
      ground (
        arith,
        find-erase k k (put k dummy d.files) (put-IsMap k dummy d.files m),
        str_eq_iff k k,
      )) in
    (
      ground (arith, there),
      (set_files (erase k d₁.files) d₁, ground (arith, there), rw (gone, Returns) refl),
    )

-- In a directory where no name stands twice, and where the container does not rehash, rename of
-- a name that is there to one that is not moves what the old name stood for to the new one, and
-- leaves any other name and all files alone.
pub rename_lem :
    (src target other : String) (v : Slot) (rehashes : Files → Bool) (d : RamDirectory)
    → IsMap d.files
    → rehashes d.files ≡ false
    → find src d.files ≡ some v
    → find target d.files ≡ none
    → src ≢ other
    → target ≢ other
    → Returns (rename rehashes src target d) (λ u d'.
      (d'.heap ≡ d.heap)
      × (find target d'.files ≡ some v)
      × (find src d'.files ≡ none)
      × (find other d'.files ≡ find other d.files))
unfolding rename
rename_lem src target other v rehashes d m still old new not_src not_target =
    let differ : src ≢ target = λ e. absurd (ground (arith, old, new, e)) in
    let erased =
      λ (j : String). find-erase src j (put target v d.files) (put-IsMap target v d.files m) in
    rw (old, new, still, Returns)
      (
        refl,
        ground (
          arith,
          erased target,
          find-put target target v d.files,
          str_eq_iff target target,
          str_eq_iff src target,
          differ,
        ),
        ground (arith, erased src, str_eq_iff src src),
        ground (
          arith,
          erased other,
          find-put target other v d.files,
          str_eq_iff src other,
          str_eq_iff target other,
        ),
      )

-- Where the container rehashes as the new name is inserted, rename uses an invalid iterator.
pub rename_rehash :
    (src target : String) (v : Slot) (rehashes : Files → Bool) (d : RamDirectory)
    → rehashes d.files ≡ true
    → find src d.files ≡ some v
    → find target d.files ≡ none
    → rename rehashes src target d ≡ undefined
unfolding rename
rename_rehash src target v rehashes d moves old new = ground (arith, old, new, moves)

-- An output stream whose file is renamed before it is finished, which the directory allows if no
-- name stands twice, the new name is free and the container does not rehash, ends the program in
-- its destructor.
pub rename_unfinished :
    (s : RamOutput) (target : String) (rehashes : Files → Bool) (d : RamDirectory)
    → IsMap d.files
    → rehashes d.files ≡ false
    → find (close s).name d.files ≡ some dummy
    → find target d.files ≡ none
    → Returns (rename rehashes (close s).name target d) (λ u d'. close_output s d' ≡ aborts)
unfolding rename close_output commit
rename_unfinished s target rehashes d m still old new =
    let src = (close s).name in
    let gone : find src (erase src (put target dummy d.files)) ≡ none = ground (
      arith,
      find-erase src src (put target dummy d.files) (put-IsMap target dummy d.files m),
      str_eq_iff src src,
    ) in
    rw (old, new, still, Returns) (ground (arith, gone))
