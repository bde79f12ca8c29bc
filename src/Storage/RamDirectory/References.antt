-- ===== src/Storage/RamDirectory/References.antt =====
-- What the reference counts of RAMDirectory count, and the calls that change only the names.
pub mod Drops
use lucanthrope.Base.{
  ℕ, zero, suc, ◌+◌, ◌-◌, ◌≤◌, ◌<◌, ◌≡◌, ◌≢◌, ◌⊎◌, inl, inr, refl, sym, ap, ◌∙◌, Bool, true, false,
  String, List, [], ◌∷◌, Option, none, some, ◌==◌, dec_lt, ℕ_discrete, if◌then◌else◌, Option-cases,
  arith, str_eq, str_eq_iff,
}
use lucanthrope.Exception.{Outcome, ok, Returns, Safely}
use lucanthrope.Storage.RamFile.{RamFile}
use lucanthrope.Storage.FileMap.{Slot, Files, dummy, file, find, put, erase, points, pointers}
use lucanthrope.Storage.FileMap.Laws.{
  IsMap, put-IsMap, erase-IsMap, pointers-put_new, pointers-put_old, pointers-erase, find-put,
}
use lucanthrope.Storage.RamDirectory.{
  RamDirectory, new_directory, drop_ref, set_heap, set_files, commit, unref_reader, delete_file,
  create_output, rename, open_input, obtain_lock, release_lock,
}

abbrev pub occurrences : ℕ → List ℕ → ℕ
occurrences p [] = 0
occurrences p (q ∷ rest) = (if p == q then 1 else 0) + occurrences p rest

abbrev pub refs_at : Option RamFile → ℕ
refs_at none = 0
refs_at (some f) = f.refs

abbrev pub IsLive : Option RamFile → Type 0
IsLive none = Unit {0}
IsLive (some f) = 0 < f.refs

-- With `readers` the files of the open input streams: the count of a file is the number of names
-- and of streams that refer to it, and a file is there just as long as that is not 0. A file has one
-- name at most.
pub record IsSound (d : RamDirectory) (readers : List ℕ) : Type 0 where
  pub is_map : IsMap d.files
  pub counted : (p : ℕ) → refs_at (d.heap p) ≡ pointers p d.files + occurrences p readers
  pub single : (p : ℕ) → pointers p d.files ≤ 1
  pub live : (p : ℕ) → IsLive (d.heap p)
  pub unused : (p : ℕ) → d.next ≤ p → d.heap p ≡ none

fresh_name-IsSound :
    (fname : String) (d : RamDirectory) (readers : List ℕ)
    → IsSound d readers
    → find fname d.files ≡ none
    → IsSound (set_files (put fname dummy d.files) d) readers
fresh_name-IsSound fname d readers i new = record {
  is_map = put-IsMap fname dummy d.files i.is_map;
  counted = λ q. omega (arith, i.counted q, pointers-put_new q fname dummy d.files new);
  single = λ q. ground (arith, i.single q, pointers-put_new q fname dummy d.files new);
  live = i.live;
  unused = i.unused;
}

pub create_output-IsSound :
    (fname : String) (d : RamDirectory) (readers : List ℕ)
    → IsSound d readers
    → Safely (create_output fname d) (λ s d'. IsSound d' readers) (λ d'. d' ≡ d)
unfolding create_output
create_output-IsSound fname d readers i = elim (Option-cases (find fname d.files)) [
  | inl new ↦ rw (new, Safely) (fresh_name-IsSound fname d readers i new)
  | inr (slot, old) ↦ rw (old, Safely) refl
]

pub obtain_lock-IsSound :
    (fname : String) (d : RamDirectory) (readers : List ℕ)
    → IsSound d readers
    → Safely (obtain_lock fname d) (λ l d'. IsSound d' readers) (λ d'. d' ≡ d)
unfolding obtain_lock
obtain_lock-IsSound fname d readers i = elim (Option-cases (find fname d.files)) [
  | inl new ↦ rw (new, Safely) (fresh_name-IsSound fname d readers i new)
  | inr (slot, old) ↦ rw (old, Safely) i
]

pub release_lock-IsSound :
    (fname : String) (d : RamDirectory) (readers : List ℕ)
    → IsSound d readers
    → Safely (release_lock fname d) (λ u d'. IsSound d' readers) (λ d'. d' ≡ d)
unfolding release_lock
release_lock-IsSound fname d readers i = elim (Option-cases (find fname d.files)) [
  | inl new ↦ rw (new, Safely) i
  | inr (dummy, old) ↦
      rw (old, Safely)
        (record {
          is_map = erase-IsMap fname d.files i.is_map;
          counted = λ q. omega (arith, i.counted q, pointers-erase q fname dummy d.files old);
          single = λ q. ground (arith, i.single q, pointers-erase q fname dummy d.files old);
          live = i.live;
          unused = i.unused;
        })
  | inr (file p, old) ↦ rw (old, Safely) tt
]

pub commit-IsSound :
    (fname : String) (f : RamFile) (d : RamDirectory) (readers : List ℕ)
    → IsSound d readers
    → Safely (commit fname f d) (λ u d'. IsSound d' readers) (λ d'. d' ≡ d)
unfolding commit
commit-IsSound fname f d readers i = elim (Option-cases (find fname d.files)) [
  | inl new ↦ rw (new, Safely) tt
  | inr (dummy, old) ↦
      rw (old, Safely)
        (record {
          is_map = put-IsMap fname (file d.next) d.files i.is_map;
          counted = λ q. ground (
            arith,
            i.counted q,
            i.unused d.next,
            pointers-put_old q fname (file d.next) dummy d.files old,
          );
          single = λ q. ground (
            arith,
            i.single q,
            i.unused d.next,
            pointers-put_old q fname (file d.next) dummy d.files old,
            i.counted d.next,
          );
          live = λ q. ground (arith, i.live q);
          unused = λ q h. ground (arith, i.unused q);
        })
  | inr (file p, old) ↦ rw (old, Safely) tt
]

pub rename-IsSound :
    (rehashes : Files → Bool) (src target : String) (d : RamDirectory) (readers : List ℕ)
    → IsSound d readers
    → rehashes d.files ≡ false
    → Safely (rename rehashes src target d) (λ u d'. IsSound d' readers) (λ d'. d' ≡ d)
unfolding rename
rename-IsSound rehashes src target d readers i still = elim (Option-cases (find src d.files)) [
  | inl missing ↦ rw (missing, Safely) refl
  | inr (slot, old) ↦ elim (Option-cases (find target d.files)) [
    | inr (other, taken) ↦ rw (old, taken, Safely) refl
    | inl new ↦
        let there : find src (put target slot d.files) ≡ some slot =
          ground (arith, str_eq_iff target src, old, new, find-put target src slot d.files) in
        rw (old, new, still, Safely)
          (record {
            is_map =
                erase-IsMap src (put target slot d.files) (put-IsMap target slot d.files i.is_map);
            counted = λ q. omega (
              arith,
              i.counted q,
              pointers-put_new q target slot d.files new,
              pointers-erase q src slot (put target slot d.files) there,
            );
            single = λ q. ground (
              arith,
              i.single q,
              pointers-put_new q target slot d.files new,
              pointers-erase q src slot (put target slot d.files) there,
            );
            live = i.live;
            unused = i.unused;
          })
  ]
]

pub new_directory-IsSound : IsSound new_directory []
unfolding new_directory pointers
new_directory-IsSound = record {
  is_map = tt;
  counted = λ p. refl;
  single = λ p. omega arith;
  live = λ p. tt;
  unused = λ p h. refl;
}
