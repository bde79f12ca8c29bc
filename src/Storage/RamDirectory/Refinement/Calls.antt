-- ===== src/Storage/RamDirectory/Refinement/Calls.antt =====
-- Each call of RAMDirectory against what the interface promises, or the assertion it fails instead.
use mathlib.Core.Path.{fun_ext}
use lucanthrope.Base.{
  ℕ, ◌≡◌, ◌≢◌, refl, ◌∙◌, ap, Bool, false, String, List, ◌∷◌, ◌++◌, none, some, Option-cases, inl,
  inr, arith, str_eq, ◌==◌, Bool-cases,
}
use lucanthrope.Exception.{ok}
use lucanthrope.Storage.RamFile.{RamFile}
use lucanthrope.Storage.FileMap
use lucanthrope.Storage.FileMap.{Files, dummy, file, find, put, erase}
use lucanthrope.Storage.RamFileIndexInput.{new_input}
use lucanthrope.Storage.FileMap.Laws.{find-erase, put-IsMap}
use lucanthrope.Storage.Directory.{
  change, Listing, Call, list_all, listed, once, create_output, delete_file, open_input,
  obtain_lock, file_exists, file_length, rename, close_output, close_input, close_lock, promised,
  departs, answered,
}
use lucanthrope.Storage.RamDirectory
use lucanthrope.Storage.RamDirectory.{
  RamDirectory, set_files, set_heap, drop_ref, unref_reader, commit, release_lock,
}
use lucanthrope.Storage.RamDirectory.References.{IsSound, occurrences}
use lucanthrope.Storage.RamDirectory.References.Drops.{unref_reader-IsSound, occurrences-append}
use lucanthrope.Storage.RamDirectory.Worlds.{World, Reachable, held}
use lucanthrope.Storage.RamDirectory.Behaviour.Listing.{names_lem, names_once}
use lucanthrope.Storage.RamDirectory.Lifetime.{Reachable-IsSafe}
use lucanthrope.Storage.RamDirectory.Refinement.{perform, view, Agrees, Allowed}
use lucanthrope.Storage.RamDirectory.Refinement.View.{
  name_cases, other_name, view-put, view-erase, view-open, view-drop, view-commit, pointers-find,
  entry_lem, drop_ref-ok,
}

module _ (r : Files → Bool) (d : RamDirectory) (readers : List ℕ) (i : IsSound d readers) where
  held-names : (k : String) → held k (FileMap.names d.files) ≡ once (view d k)
  held-names k = elim (Option-cases (find k d.files)) [
    | inl missing ↦ rw missing (names_lem d.files k i.is_map missing)
    | inr (v, old) ↦
        let (e, there) = entry_lem d readers i k v old in
        rw (old, there) (names_once d.files k v i.is_map old)
  ]

  list_all-Agrees : Agrees (perform r list_all d) (answered list_all (view d))
  unfolding perform answered promised departs RamDirectory.list_all
  list_all-Agrees = (ap listed (fun_ext held-names), refl)

  create_output-Agrees :
      (k : String) → Agrees (perform r (create_output k) d) (answered (create_output k) (view d))
  unfolding perform answered promised departs RamDirectory.create_output
  create_output-Agrees k = elim (name_cases d readers i k) [
    | inl new ↦ rw (answered, promised, departs, new, Agrees) (refl, view-put k dummy d)
    | inr (inl old) ↦ rw (answered, promised, departs, old, Agrees) (refl, refl)
    | inr (inr (p, f, old, here)) ↦ rw (answered, promised, departs, old, here, Agrees) (refl, refl)
  ]

  obtain_lock-Agrees :
      (k : String) → Agrees (perform r (obtain_lock k) d) (answered (obtain_lock k) (view d))
  unfolding perform answered promised departs RamDirectory.obtain_lock
  obtain_lock-Agrees k = elim (name_cases d readers i k) [
    | inl new ↦ rw (answered, promised, departs, new, Agrees) (refl, view-put k dummy d)
    | inr (inl old) ↦ rw (answered, promised, departs, old, Agrees) (refl, refl)
    | inr (inr (p, f, old, here)) ↦ rw (answered, promised, departs, old, here, Agrees) (refl, refl)
  ]

  file_exists-Agrees :
      (k : String) → Agrees (perform r (file_exists k) d) (answered (file_exists k) (view d))
  unfolding perform answered promised departs RamDirectory.file_exists
  file_exists-Agrees k = elim (name_cases d readers i k) [
    | inl new ↦ rw (answered, promised, departs, new, Agrees) (refl, refl)
    | inr (inl old) ↦ rw (answered, promised, departs, old, Agrees) (refl, refl)
    | inr (inr (p, f, old, here)) ↦ rw (answered, promised, departs, old, here, Agrees) (refl, refl)
  ]

  file_length-Agrees :
      (k : String) → Agrees (perform r (file_length k) d) (answered (file_length k) (view d))
  unfolding perform answered promised departs RamDirectory.file_length RamDirectory.length_at
  file_length-Agrees k = elim (name_cases d readers i k) [
    | inl new ↦ rw (answered, promised, departs, new, Agrees) (refl, refl)
    | inr (inl old) ↦ rw (answered, promised, departs, old, Agrees) (refl, refl)
    | inr (inr (p, f, old, here)) ↦ rw (answered, promised, departs, old, here, Agrees) (refl, refl)
  ]

  open_input-Agrees :
      (k : String) → Agrees (perform r (open_input k) d) (answered (open_input k) (view d))
  unfolding perform answered promised departs RamDirectory.open_input RamDirectory.open_at new_input
  open_input-Agrees k = elim (name_cases d readers i k) [
    | inl new ↦ rw (answered, promised, departs, new, Agrees) (refl, refl)
    | inr (inl old) ↦ rw (answered, promised, departs, old, Agrees) refl
    | inr (inr (p, f, old, here)) ↦ elim (Bool-cases (f.length == 0)) [
      | inl empty ↦ rw (answered, promised, departs, old, here, empty, Agrees) refl
      | inr bytes ↦
          rw (answered, promised, departs, old, here, bytes, Agrees) (refl, view-open p f d here)
    ]
  ]

  close_lock-Agrees :
      (k : String) → Agrees (perform r (close_lock k) d) (answered (close_lock k) (view d))
  unfolding perform answered promised departs release_lock
  close_lock-Agrees k = elim (name_cases d readers i k) [
    | inl new ↦ rw (answered, promised, departs, new, Agrees) (refl, refl)
    | inr (inl old) ↦ rw (answered, promised, departs, old, Agrees) (refl, view-erase k d i.is_map)
    | inr (inr (p, f, old, here)) ↦ rw (answered, promised, departs, old, here, Agrees) refl
  ]

  close_output-Agrees :
      (f : RamFile) → Agrees (perform r (close_output f) d) (answered (close_output f) (view d))
  unfolding perform answered promised departs commit
  close_output-Agrees f = elim (name_cases d readers i f.name) [
    | inl new ↦ rw (answered, promised, departs, new, Agrees) refl
    | inr (inl old) ↦
        rw (answered, promised, departs, old, Agrees) (refl, view-commit f.name f d readers i)
    | inr (inr (p, g, old, here)) ↦ rw (answered, promised, departs, old, here, Agrees) refl
  ]

  -- The file loses its name and then a reference, and no name is left that shows it.
  unnamed :
      (j k : String) (p : ℕ)
      → find k d.files ≡ some (file p)
      → find j (erase k d.files) ≢ some (file p)
  unnamed j k p old still = elim (Bool-cases (str_eq k j)) [
    | inl same ↦ absurd (ground (arith, same, still, find-erase k j d.files i.is_map))
    | inr differ ↦
        other_name d readers i j k p old differ
          (ground (arith, differ, still, find-erase k j d.files i.is_map))
  ]

  delete_file-Agrees :
      (k : String) → Agrees (perform r (delete_file k) d) (answered (delete_file k) (view d))
  unfolding perform answered promised departs RamDirectory.delete_file
  delete_file-Agrees k = elim (name_cases d readers i k) [
    | inl new ↦ rw (answered, promised, departs, new, Agrees) (refl, refl)
    | inr (inl old) ↦ rw (answered, promised, departs, old, Agrees) refl
    | inr (inr (p, f, old, here)) ↦
        let d₁ : RamDirectory = set_files (erase k d.files) d in
        let (d', e) = drop_ref-ok p f d₁ here in
        let kept = view-drop p d₁ d' e (λ j g h _. absurd (unnamed j k p old h)) in
        let same : view d' ≡ change (view d) k none = kept ∙ view-erase k d i.is_map in
        let dropped : drop_ref p (some f) d₁ ≡ ok tt d' = rw here at e in
        rw (answered, promised, departs, old, here, dropped, Agrees) (refl, same)
  ]

  rename-Agrees :
      (src target : String)
      → r d.files ≡ false
      → Agrees (perform r (rename src target) d) (answered (rename src target) (view d))
  unfolding perform answered promised departs RamDirectory.rename
  rename-Agrees src target still = elim (Option-cases (find src d.files)) [
    | inl new ↦ rw (answered, promised, departs, new, Agrees) (refl, refl)
    | inr (slot, old) ↦
        let (e, shown) = entry_lem d readers i src slot old in
        elim (Option-cases (find target d.files)) [
          | inl free ↦
              let moved =
                view-erase src (set_files (put target slot d.files) d)
                  (put-IsMap target slot d.files i.is_map) in
              let named = view-put target slot d in
              let same : view (set_files (erase src (put target slot d.files)) d)
                  ≡ change (change (view d) target (some e)) src none =
                rw shown at (moved ∙ ap (λ (a : Listing). change a src none) named) in
              let unlisted : view d target ≡ none = rw free refl in
              rw (answered, promised, departs, old, free, still, shown, unlisted, Agrees)
                (refl, same)
          | inr (other, taken) ↦
              let (e', shown') = entry_lem d readers i target other taken in
              let listed : view d target ≡ some e' = rw taken shown' in
              rw (answered, promised, departs, old, taken, shown, listed, Agrees) (refl, refl)
        ]
  ]

  close_input-Agrees :
      (p : ℕ) (before after : List ℕ)
      → readers ≡ before ++ p ∷ after
      → Agrees (perform r (close_input p) d) (answered (close_input p) (view d))
  unfolding perform answered promised departs unref_reader
  close_input-Agrees p before after opens =
      let (d', e, _, _) = unref_reader-IsSound p d before after (rw opens at i) in
      let dropped : drop_ref p (d.heap p) d ≡ ok tt d' = e in
      let open_once = ap (occurrences p) opens ∙ occurrences-append p p before after in
      let kept = view-drop p d d' e (λ j f h here last.
        absurd (ground (arith, here, last, i.counted p, pointers-find j p d.files h, open_once))) in
      rw (answered, promised, departs, dropped, Agrees) (refl, kept)

-- In a reachable world each call but deleteSegment does what the comments of the interface promise: it
-- answers or throws as the listing says, and the directory then looks as the listing says, on every
-- branch of the call; of listAll the answer is how often it lists each name. In three cases it fails
-- an assertion where the comments promise something else, and only there or where a destructor's name
-- is not held: openInput of an unfinished file, for which they promise an exception, openInput of an
-- empty one, for which they promise a stream, and deleteFile of an unfinished one, which they promise
-- to remove. An input stream is closed only while it is open, and for rename the container does not
-- rehash.
pub calls_refine :
    (r : Files → Bool) (c : Call) (w : World)
    → Reachable w
    → Allowed r c w
    → Agrees (perform r c w.dir) (answered c (view w.dir))
calls_refine r list_all w reach h = list_all-Agrees r w.dir w.readers (Reachable-IsSafe reach).sound
calls_refine r (create_output k) w reach h =
    create_output-Agrees r w.dir w.readers (Reachable-IsSafe reach).sound k
calls_refine r (delete_file k) w reach h =
    delete_file-Agrees r w.dir w.readers (Reachable-IsSafe reach).sound k
calls_refine r (open_input k) w reach h =
    open_input-Agrees r w.dir w.readers (Reachable-IsSafe reach).sound k
calls_refine r (obtain_lock k) w reach h =
    obtain_lock-Agrees r w.dir w.readers (Reachable-IsSafe reach).sound k
calls_refine r (file_exists k) w reach h =
    file_exists-Agrees r w.dir w.readers (Reachable-IsSafe reach).sound k
calls_refine r (file_length k) w reach h =
    file_length-Agrees r w.dir w.readers (Reachable-IsSafe reach).sound k
calls_refine r (rename src target) w reach h =
    rename-Agrees r w.dir w.readers (Reachable-IsSafe reach).sound src target h
calls_refine r (close_output f) w reach h =
    close_output-Agrees r w.dir w.readers (Reachable-IsSafe reach).sound f
calls_refine r (close_lock k) w reach h =
    close_lock-Agrees r w.dir w.readers (Reachable-IsSafe reach).sound k
calls_refine r (close_input p) w reach (before, after, opens) =
    close_input-Agrees r w.dir w.readers (Reachable-IsSafe reach).sound p before after opens
