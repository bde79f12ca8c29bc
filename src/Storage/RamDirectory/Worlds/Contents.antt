-- ===== src/Storage/RamDirectory/Worlds/Contents.antt =====
-- The bytes of a file while its directory is used.
use lucanthrope.Base.{
  ℕ, ◌+◌, ◌≡◌, refl, String, inl, inr, Option, none, some, Option-cases, Bool-cases, ◌==◌, arith,
}
use lucanthrope.Exception.{ok}
use lucanthrope.Storage.RamFile.{RamFile}
use lucanthrope.Storage.FileMap.{dummy, file, find, erase}
use lucanthrope.Storage.RamFileIndexInput.{RamInput, new_input}
use lucanthrope.Storage.RamDirectory.{
  set_heap, RamDirectory, set_files, create_output, obtain_lock, release_lock, commit, rename,
  delete_file, open_input, open_at, unref_reader, drop_ref,
}
use lucanthrope.Storage.RamDirectory.Worlds.{
  World, Step, created, locked, committed, released, renamed, deleted, opened, closed, IsSafe,
}

-- The file is gone, or it has the blocks and the length of `f`.
abbrev pub SameBytes : RamFile → Option RamFile → Type 0
SameBytes f none = Unit {0}
SameBytes f (some g) = (g.blocks ≡ f.blocks) × (g.length ≡ f.length)

drop_ref-SameBytes :
    (q p : ℕ) (f : RamFile) (d d' : RamDirectory)
    → d.heap p ≡ some f
    → drop_ref q (d.heap q) d ≡ ok tt d'
    → SameBytes f (d'.heap p)
unfolding drop_ref
drop_ref-SameBytes q p f d d' h e = elim (Option-cases (d.heap q)) [
  | inl gone ↦ absurd (ground (arith, e, gone))
  | inr (g, here) ↦ ground (arith, e, h, here)
]

pub Step-SameBytes :
    {w w' : World} (p : ℕ) (f : RamFile)
    → Step w w'
    → IsSafe w
    → w.dir.heap p ≡ some f
    → SameBytes f (w'.dir.heap p)
unfolding create_output obtain_lock release_lock commit rename delete_file unref_reader open_input
    open_at
Step-SameBytes p f (created w k s d' e) i h = ground (arith, e, h)
Step-SameBytes p f (locked w k d' e) i h = ground (arith, e, h)
Step-SameBytes p f (committed w k before after g d' o e) i h =
    ground (arith, e, h, i.sound.unused w.dir.next)
Step-SameBytes p f (released w k before after d' o e) i h = ground (arith, e, h)
Step-SameBytes p f (renamed w src target q rehashes d' old still e) i h = ground (arith, e, h)
Step-SameBytes p f (deleted w k d' e) i h = elim (Option-cases (find k w.dir.files)) [
  | inl missing ↦ absurd (ground (arith, e, missing))
  | inr (dummy, old) ↦ absurd (ground (arith, e, old))
  | inr (file q, old) ↦
      drop_ref-SameBytes q p f (set_files (erase k w.dir.files) w.dir) d' h
        (rw (old, delete_file) at e)
]
Step-SameBytes p f (opened w k q s d' e) i h = ground (arith, e, h)
Step-SameBytes p f (closed w q before after d' o e) i h = drop_ref-SameBytes q p f w.dir d' h e

pub opened_file :
    (k : String) (p : ℕ) (s : RamInput) (d d' : RamDirectory)
    → open_input k d ≡ ok (p, s) d'
    → (find k d.files ≡ some (file p))
      × ((f : RamFile) × (d.heap p ≡ some f)
          × (set_heap p (some (record f { refs = f.refs + 1 })) d ≡ d'))
unfolding open_input open_at
opened_file k p s d d' e = elim (Option-cases (find k d.files)) [
  | inl new ↦ absurd (ground (arith, e, new))
  | inr (dummy, old) ↦ absurd (ground (arith, e, old))
  | inr (file q, old) ↦ elim (Option-cases (d.heap q)) [
    | inl gone ↦ absurd (ground (arith, e, old, gone))
    | inr (f, here) ↦
        let same : q ≡ p = ground (arith, e, old, here) in
        (rw same at old, (f, rw same at here, rw (← same) (ground (arith, e, old, here))))
  ]
]

pub opened_stream :
    (k : String) (p : ℕ) (t : RamInput) (d d' : RamDirectory)
    → open_input k d ≡ ok (p, t) d'
    → d'.heap p ≡ some (record (t.file) { refs = t.file.refs + 1 })
unfolding open_input open_at new_input
opened_stream k p t d d' e = elim (Option-cases (find k d.files)) [
  | inl new ↦ absurd (ground (arith, e, new))
  | inr (dummy, old) ↦ absurd (ground (arith, e, old))
  | inr (file q, old) ↦ elim (Option-cases (d.heap q)) [
    | inl gone ↦ absurd (ground (arith, e, old, gone))
    | inr (f, here) ↦ elim (Bool-cases (f.length == 0)) [
      | inl empty ↦ absurd (ground (arith, e, old, here, empty))
      | inr some_bytes ↦
          let more : RamDirectory = set_heap q (some (record f { refs = f.refs + 1 })) d in
          let opens : ok (q, new_input f) more ≡ ok (p, t) d' =
            rw (open_input, old, here, open_at, some_bytes) at e in
          let place : q ≡ p = cc (opens) in
          let stream : new_input f ≡ t = cc (opens) in
          let dir : more ≡ d' = cc (opens) in rw (← dir, ← stream, ← place) (ground arith)
    ]
  ]
]

pub opened_bytes :
    (k : String) (p : ℕ) (t : RamInput) (d d' : RamDirectory)
    → open_input k d ≡ ok (p, t) d'
    → (f : RamFile) × (d.heap p ≡ some f) × (f.blocks ≡ t.file.blocks) × (f.length ≡ t.file.length)
opened_bytes k p t d d' e =
    let (_, (f, here, more)) = opened_file k p t d d' e in
    let stream : SameBytes t.file (d'.heap p) = rw (opened_stream k p t d d' e) (refl, refl) in
    let bytes = rw (← more) at stream in
    let file : SameBytes t.file (some (record f { refs = f.refs + 1 })) = ground (arith, bytes) in
    (f, here, file.0, file.1)
