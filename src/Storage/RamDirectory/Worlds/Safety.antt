-- ===== src/Storage/RamDirectory/Worlds/Safety.antt =====
-- What holds in every world that the clients of a directory can reach.
use mathlib.Core.Path.{subst}
use lucanthrope.Base.{
  ℕ, ◌+◌, ◌≡◌, sym, ◌∙◌, Bool, String, List, [], ◌∷◌, ◌++◌, none, some, if◌then◌else◌, Option-cases,
  inl, inr, arith, str_eq, str_eq_iff,
}
use lucanthrope.Exception.{Outcome, ok, Safely}
use lucanthrope.Storage.RamFile.{RamFile}
use lucanthrope.Storage.FileMap.{Files, dummy, file, find, put, erase}
use lucanthrope.Storage.FileMap.Laws.{find-put, find-erase, put-IsMap}
use lucanthrope.Storage.RamFileIndexOutput.{RamOutput}
use lucanthrope.Storage.RamFileIndexInput.{RamInput}
use lucanthrope.Storage.RamDirectory.{
  RamDirectory, commit, unref_reader, delete_file, create_output, rename, open_input, obtain_lock,
  release_lock, drop_ref, open_at,
}
use lucanthrope.Storage.RamDirectory.References.{
  IsSound, create_output-IsSound, obtain_lock-IsSound, release_lock-IsSound, commit-IsSound,
  rename-IsSound,
}
use lucanthrope.Storage.RamDirectory.References.Drops.{
  delete_file-IsSound, unref_reader-IsSound, open_input-IsSound,
}
use lucanthrope.Storage.RamDirectory.Worlds.{
  World, Step, created, locked, committed, released, renamed, deleted, opened, closed, held,
  unfinished, IsSafe,
}

safely-ok :
    {S A : Type 0} {o : Outcome S A} {a : A} {s : S} (P : A → S → Type 0) (Q : S → Type 0)
    → o ≡ ok a s
    → Safely o P Q
    → P a s
safely-ok P Q e h = subst (λ o. Safely o P Q) e h

held-append :
    (j k : String) (before after : List String)
    → held j (before ++ k ∷ after) ≡ held j (before ++ after) + (if str_eq k j then 1 else 0)
held-append j k [] after = omega arith
held-append j k (x ∷ before) after = omega (arith, held-append j k before after)

pub created_files :
    (k : String) (s : RamOutput) (d d' : RamDirectory)
    → create_output k d ≡ ok s d'
    → (find k d.files ≡ none) × (d'.files ≡ put k dummy d.files)
unfolding create_output
created_files k s d d' e = ground (arith, e)

pub locked_files :
    (k : String) (d d' : RamDirectory)
    → obtain_lock k d ≡ ok (some k) d'
    → (find k d.files ≡ none) × (d'.files ≡ put k dummy d.files)
unfolding obtain_lock
locked_files k d d' e = ground (arith, e)

pub committed_files :
    (k : String) (f : RamFile) (d d' : RamDirectory)
    → commit k f d ≡ ok tt d'
    → (find k d.files ≡ some dummy) × (d'.files ≡ put k (file d.next) d.files)
unfolding commit
committed_files k f d d' e = ground (arith, e)

pub released_files :
    (k : String) (d d' : RamDirectory)
    → find k d.files ≡ some dummy
    → release_lock k d ≡ ok tt d'
    → d'.files ≡ erase k d.files
unfolding release_lock
released_files k d d' h e = ground (arith, h, e)

pub renamed_files :
    (src target : String) (p : ℕ) (rehashes : Files → Bool) (d d' : RamDirectory)
    → find src d.files ≡ some (file p)
    → rename rehashes src target d ≡ ok tt d'
    → (find target d.files ≡ none) × (d'.files ≡ erase src (put target (file p) d.files))
unfolding rename
renamed_files src target p rehashes d d' h e = ground (arith, h, e)

pub deleted_files :
    (k : String) (d d' : RamDirectory)
    → delete_file k d ≡ ok tt d'
    → (p : ℕ) × (find k d.files ≡ some (file p)) × (d'.files ≡ erase k d.files)
unfolding delete_file drop_ref
deleted_files k d d' e = elim (Option-cases (find k d.files)) [
  | inl missing ↦ absurd (ground (arith, missing, e))
  | inr (dummy, old) ↦ absurd (ground (arith, old, e))
  | inr (file p, old) ↦ (p, old, ground (arith, old, e))
]

pub opened_files :
    (k : String) (p : ℕ) (s : RamInput) (d d' : RamDirectory)
    → open_input k d ≡ ok (p, s) d'
    → d'.files ≡ d.files
unfolding open_input open_at
opened_files k p s d d' e = ground (arith, e)

pub closed_files : (p : ℕ) (d d' : RamDirectory) → unref_reader p d ≡ ok tt d' → d'.files ≡ d.files
unfolding unref_reader drop_ref
closed_files p d d' e = ground (arith, e)

-- An open output stream, or a lock that is held, has its name in the map.
pub pending_lem :
    (w : World) (k : String) (before after : List String)
    → ((j : String) → held j w.writers ≡ unfinished (find j w.dir.files))
    → w.writers ≡ before ++ k ∷ after
    → find k w.dir.files ≡ some dummy
pending_lem w k before after pending opens =
    let count = rw opens at pending k in
    elim (Option-cases (find k w.dir.files)) [
      | inl new ↦ absurd (ground (arith, new, count, held-append k k before after, str_eq_iff k k))
      | inr (dummy, old) ↦ old
      | inr (file p, old) ↦
          absurd (ground (arith, old, count, held-append k k before after, str_eq_iff k k))
    ]

pub writer_lem :
    (w : World) (k : String) (before after : List String)
    → IsSafe w
    → w.writers ≡ before ++ k ∷ after
    → find k w.dir.files ≡ some dummy
writer_lem w k before after i = pending_lem w k before after i.pending

pub Step-IsSafe : {w w' : World} → Step w w' → IsSafe w → IsSafe w'
Step-IsSafe (created w k s d' e) i =
    let (new, same) = created_files k s w.dir d' e in
    record {
      sound = safely-ok _ _ e (create_output-IsSound k w.dir w.readers i.sound);
      pending = λ j.
          rw same
            (ground (arith, i.pending j, str_eq_iff k j, find-put k j dummy w.dir.files, new));
    }
Step-IsSafe (locked w k d' e) i =
    let (new, same) = locked_files k w.dir d' e in
    record {
      sound = safely-ok _ _ e (obtain_lock-IsSound k w.dir w.readers i.sound);
      pending = λ j.
          rw same
            (ground (arith, i.pending j, str_eq_iff k j, find-put k j dummy w.dir.files, new));
    }
Step-IsSafe (committed w k before after f d' opens e) i =
    let (old, same) = committed_files k f w.dir d' e in
    record {
      sound = safely-ok _ _ e (commit-IsSound k f w.dir w.readers i.sound);
      pending = λ j.
          let count = rw opens at i.pending j in
          rw same (
            ground (
              arith,
              count,
              str_eq_iff k j,
              find-put k j (file w.dir.next) w.dir.files,
              old,
              held-append j k before after,
            ));
    }
Step-IsSafe (released w k before after d' opens e) i =
    let old : find k w.dir.files ≡ some dummy = writer_lem w k before after i opens in
    let same = released_files k w.dir d' old e in
    record {
      sound = safely-ok _ _ e (release_lock-IsSound k w.dir w.readers i.sound);
      pending = λ j.
          let count = rw opens at i.pending j in
          rw same (
            ground (
              arith,
              count,
              str_eq_iff k j,
              find-erase k j w.dir.files i.sound.is_map,
              old,
              held-append j k before after,
            ));
    }
Step-IsSafe (renamed w src target p rehashes d' old still e) i =
    let (new, same) = renamed_files src target p rehashes w.dir d' old e in
    record {
      sound = safely-ok _ _ e (rename-IsSound rehashes src target w.dir w.readers i.sound still);
      pending = λ j. rw same (
          ground (
            arith,
            i.pending j,
            old,
            new,
            str_eq_iff src j,
            str_eq_iff target j,
            find-put target j (file p) w.dir.files,
            find-erase src j (put target (file p) w.dir.files)
                (put-IsMap target (file p) w.dir.files i.sound.is_map),
          ));
    }
Step-IsSafe (deleted w k d' e) i =
    let (p, old, same) = deleted_files k w.dir d' e in
    record {
      sound = safely-ok _ _ e (delete_file-IsSound k w.dir w.readers i.sound);
      pending = λ j. rw same (
          ground
            (arith, i.pending j, str_eq_iff k j, find-erase k j w.dir.files i.sound.is_map, old));
    }
Step-IsSafe (opened w k p s d' e) i = record {
  sound = safely-ok _ _ e (open_input-IsSound k w.dir w.readers i.sound);
  pending = λ j. rw (opened_files k p s w.dir d' e) (i.pending j);
}
Step-IsSafe (closed w p before after d' opens e) i =
    let (d'', e'', sound, same) = unref_reader-IsSound p w.dir before after (rw opens at i.sound) in
    record {
      sound =
          subst (λ o. Safely o (λ u d. IsSound d (before ++ after)) (λ d. Unit)) (sym e'' ∙ e)
            sound;
      pending = λ j. rw (closed_files p w.dir d' e) (i.pending j);
    }
