-- ===== src/Storage/RamDirectory/Refinement/View.antt =====
-- How the changes that RAMDirectory makes to its names and files look from outside.
use mathlib.Core.Path.{fun_ext}
use lucanthrope.Base.{
  ℕ, ◌+◌, ◌-◌, ◌≤◌, ◌≡◌, ◌≢◌, ◌⊎◌, refl, ap, false, String, List, none, some, Option-cases,
  ℕ_discrete, sym, inl, inr, arith, str_eq, ◌==◌, if◌then◌else◌, Bool-cases,
}
use lucanthrope.Exception.{ok}
use lucanthrope.Storage.RamFile.{RamFile}
use lucanthrope.Storage.FileMap.{Slot, Files, dummy, file, find, put, erase, pointers}
use lucanthrope.Storage.FileMap.Laws.{IsMap, find-put, find-erase, pointers-erase}
use lucanthrope.Storage.Directory.{Entry, unfinished, finished, change}
use lucanthrope.Storage.RamDirectory.{RamDirectory, set_files, set_heap, drop_ref}
use lucanthrope.Storage.RamDirectory.References.{IsSound}
use lucanthrope.Storage.RamDirectory.Refinement.{contents_of, entry_of, view}

-- A file with a name has a pointer.
pub pointers-find : (j : String) (p : ℕ) (m : Files) → find j m ≡ some (file p) → 1 ≤ pointers p m
pointers-find j p m h = ground (arith, pointers-erase p j (file p) m h)

module _ (d : RamDirectory) (readers : List ℕ) (i : IsSound d readers) where
  pub named_file :
      (j : String) (p : ℕ) → find j d.files ≡ some (file p) → (f : RamFile) × (d.heap p ≡ some f)
  named_file j p h = elim (Option-cases (d.heap p)) [
    | inl gone ↦ absurd (ground (arith, gone, i.counted p, pointers-find j p d.files h))
    | inr here ↦ here
  ]

  -- What a name stands for.
  pub name_cases :
      (k : String)
      → (find k d.files ≡ none)
        ⊎ (find k d.files ≡ some dummy)
        ⊎ ((p : ℕ) × (f : RamFile) × (find k d.files ≡ some (file p)) × (d.heap p ≡ some f))
  name_cases k = elim (Option-cases (find k d.files)) [
    | inl new ↦ inl new
    | inr (dummy, old) ↦ inr (inl old)
    | inr (file p, old) ↦ let (f, here) = named_file k p old in inr (inr (p, f, old, here))
  ]

  pub entry_lem :
      (k : String) (slot : Slot)
      → find k d.files ≡ some slot
      → (e : Entry) × (entry_of d.heap (some slot) ≡ some e)
  entry_lem k dummy old = (unfinished, refl)
  entry_lem k (file p) old =
      let (f, here) = named_file k p old in (finished f.blocks f.length, ap contents_of here)

  -- Two names never stand for one file.
  pub other_name :
      (j k : String) (p : ℕ)
      → find k d.files ≡ some (file p)
      → str_eq k j ≡ false
      → find j d.files ≢ some (file p)
  other_name j k p hk differ hj =
      let still : find j (erase k d.files) ≡ some (file p) =
        ground (arith, find-erase k j d.files i.is_map, hj, differ) in
      ground (
        arith,
        i.single p,
        pointers-erase p k (file p) d.files hk,
        pointers-find j p (erase k d.files) still,
      )

pub view-put :
    (k : String) (v : Slot) (d : RamDirectory)
    → view (set_files (put k v d.files) d) ≡ change (view d) k (entry_of d.heap (some v))
view-put k v d = fun_ext λ j. elim (Bool-cases (str_eq k j)) [
  | inl same ↦ rw (find-put k j v d.files, same) refl
  | inr other ↦ rw (find-put k j v d.files, other) refl
]

pub view-erase :
    (k : String) (d : RamDirectory)
    → IsMap d.files
    → view (set_files (erase k d.files) d) ≡ change (view d) k none
view-erase k d m = fun_ext λ j. elim (Bool-cases (str_eq k j)) [
  | inl same ↦ rw (find-erase k j d.files m, same) refl
  | inr other ↦ rw (find-erase k j d.files m, other) refl
]

-- A heap in which every named file has the bytes that it had.
pub view-heap :
    (d d' : RamDirectory)
    → d'.files ≡ d.files
    → ((j : String) (p : ℕ)
        → find j d.files ≡ some (file p)
        → contents_of (d'.heap p) ≡ contents_of (d.heap p))
    → view d' ≡ view d
view-heap d d' same kept = fun_ext λ j. elim (Option-cases (find j d.files)) [
  | inl missing ↦ rw (same, missing) refl
  | inr (dummy, old) ↦ rw (same, old) refl
  | inr (file p, old) ↦ rw (same, old) (kept j p old)
]

pub view-open :
    (p : ℕ) (f : RamFile) (d : RamDirectory)
    → d.heap p ≡ some f
    → view (set_heap p (some (record f { refs = f.refs + 1 })) d) ≡ view d
view-open p f d here =
    view-heap d (set_heap p (some (record f { refs = f.refs + 1 })) d) refl
      (λ j q h. ground (arith, here))

pub drop_ref-ok :
    (p : ℕ) (f : RamFile) (d : RamDirectory)
    → d.heap p ≡ some f
    → (d' : RamDirectory) × (drop_ref p (d.heap p) d ≡ ok tt d')
unfolding drop_ref
drop_ref-ok p f d here = elim (Bool-cases (f.refs == 1)) [
  | inl last ↦ (set_heap p none d, ground (arith, here, last))
  | inr more ↦ (set_heap p (some (record f { refs = f.refs - 1 })) d, ground (arith, here, more))
]

-- A reference is dropped that is not the last one of a named file.
pub view-drop :
    (p : ℕ) (d d' : RamDirectory)
    → drop_ref p (d.heap p) d ≡ ok tt d'
    → ((j : String) (f : RamFile) → find j d.files ≡ some (file p) → d.heap p ≡ some f → f.refs ≢ 1)
    → view d' ≡ view d
unfolding drop_ref
view-drop p d d' e stays = elim (Option-cases (d.heap p)) [
  | inl gone ↦ absurd (ground (arith, e, gone))
  | inr (f, here) ↦ view-heap d d' (ground (arith, e, here)) (λ j q h. elim (ℕ_discrete p q) [
    | yes same ↦ ground (arith, e, here, same, stays j f (rw (sym same) at h) here)
    | no differ ↦ ground (arith, e, here, differ)
  ])
]

pub view-commit :
    (k : String) (f : RamFile) (d : RamDirectory) (readers : List ℕ)
    → IsSound d readers
    → view (record d {
      files = put k (file d.next) d.files;
      heap = λ q. if d.next == q then some (record f { refs = 1 }) else d.heap q;
      next = d.next + 1;
    })
      ≡ change (view d) k (some (finished f.blocks f.length))
view-commit k f d readers i = fun_ext λ j. elim (Bool-cases (str_eq k j)) [
  | inl same ↦ rw (find-put k j (file d.next) d.files, same) (ground arith)
  | inr other ↦
      rw (find-put k j (file d.next) d.files, other)
        (elim (Option-cases (find j d.files)) [
          | inl missing ↦ rw missing refl
          | inr (dummy, old) ↦ rw old refl
          | inr (file p, old) ↦
              let (g, there) = named_file d readers i j p old in
              rw old (ground (arith, there, i.unused d.next))
        ])
]
