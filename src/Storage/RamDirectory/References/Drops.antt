-- ===== src/Storage/RamDirectory/References/Drops.antt =====
-- The calls that take or drop a reference: openInput, unrefReader and deleteFile.
use lucanthrope.Base.{
  ℕ, ◌+◌, ◌-◌, ◌≤◌, ◌≡◌, inl, inr, refl, String, List, [], ◌∷◌, none, some, ◌==◌, ℕ_discrete,
  if◌then◌else◌, Option-cases, Bool-cases, ◌++◌, arith,
}
use lucanthrope.Exception.{ok, Safely}
use lucanthrope.Storage.FileMap.{dummy, file, find, erase, pointers}
use lucanthrope.Storage.FileMap.Laws.{IsMap, erase-IsMap, pointers-erase}
use lucanthrope.Storage.RamDirectory.{
  RamDirectory, drop_ref, set_heap, set_files, unref_reader, delete_file, open_input, open_at,
}
use lucanthrope.Storage.RamDirectory.References.{occurrences, refs_at, IsLive, IsSound}

-- One reference to `p` is about to be dropped.
record IsExtra (p : ℕ) (d : RamDirectory) (readers : List ℕ) : Type 0 where
  is_map : IsMap d.files
  counted :
      (q : ℕ)
      → refs_at (d.heap q) ≡ pointers q d.files + occurrences q readers + (if q == p then 1 else 0)
  single : (q : ℕ) → pointers q d.files ≤ 1
  live : (q : ℕ) → IsLive (d.heap q)
  unused : (q : ℕ) → d.next ≤ q → d.heap q ≡ none

drop_ref-IsSound :
    (p : ℕ) (d : RamDirectory) (readers : List ℕ)
    → IsExtra p d readers
    → (d' : RamDirectory) × (drop_ref p (d.heap p) d ≡ ok tt d')
      × IsSound d' readers
      × (d'.files ≡ d.files)
unfolding drop_ref
drop_ref-IsSound p d readers x = elim (Option-cases (d.heap p)) [
  | inl gone ↦ absurd (ground (arith, gone, x.counted p))
  | inr (f, here) ↦ elim (ℕ_discrete f.refs 1) [
    | yes last ↦ (
      set_heap p none d,
      ground (arith, here, last),
      record {
        is_map = x.is_map;
        counted = λ q. ground (arith, here, last, x.counted q);
        single = x.single;
        live = λ q. ground (arith, x.live q);
        unused = λ q h. ground (arith, x.unused q h);
      },
      refl,
    )
    | no more ↦ (
      set_heap p (some (record f { refs = f.refs - 1 })) d,
      ground (arith, here, more),
      record {
        is_map = x.is_map;
        counted = λ q. ground (arith, here, more, x.counted q, x.live p);
        single = x.single;
        live = λ q. ground (arith, here, more, x.live q, x.live p);
        unused = λ q h. ground (arith, here, x.unused q h);
      },
      refl,
    )
  ]
]

pub delete_file-IsSound :
    (fname : String) (d : RamDirectory) (readers : List ℕ)
    → IsSound d readers
    → Safely (delete_file fname d) (λ u d'. IsSound d' readers) (λ d'. d' ≡ d)
unfolding delete_file
delete_file-IsSound fname d readers i = elim (Option-cases (find fname d.files)) [
  | inl missing ↦ rw (missing, Safely) refl
  | inr (dummy, old) ↦ rw (old, Safely) tt
  | inr (file p, old) ↦
      let (d', e, sound, kept) =
        drop_ref-IsSound p (set_files (erase fname d.files) d) readers (record {
          is_map = erase-IsMap fname d.files i.is_map;
          counted = λ q. ground (arith, i.counted q, pointers-erase q fname (file p) d.files old);
          single = λ q. omega (arith, i.single q, pointers-erase q fname (file p) d.files old);
          live = i.live;
          unused = i.unused;
        }) in
      rw (old, e, Safely) sound
]

pub occurrences-append :
    (q p : ℕ) (before after : List ℕ)
    → occurrences q (before ++ p ∷ after)
      ≡ occurrences q (before ++ after) + (if q == p then 1 else 0)
occurrences-append q p [] after = omega arith
occurrences-append q p (x ∷ before) after = omega (arith, occurrences-append q p before after)

-- The stream over `p` is destroyed.
pub unref_reader-IsSound :
    (p : ℕ) (d : RamDirectory) (before after : List ℕ)
    → IsSound d (before ++ p ∷ after)
    → (d' : RamDirectory) × (unref_reader p d ≡ ok tt d')
      × IsSound d' (before ++ after)
      × (d'.files ≡ d.files)
unfolding unref_reader
unref_reader-IsSound p d before after i = drop_ref-IsSound p d (before ++ after) (record {
  is_map = i.is_map;
  counted = λ q. omega (arith, i.counted q, occurrences-append q p before after);
  single = i.single;
  live = i.live;
  unused = i.unused;
})

pub open_input-IsSound :
    (fname : String) (d : RamDirectory) (readers : List ℕ)
    → IsSound d readers
    → Safely (open_input fname d) (λ s d'. IsSound d' (s.0 ∷ readers)) (λ d'. d' ≡ d)
unfolding open_input open_at
open_input-IsSound fname d readers i = elim (Option-cases (find fname d.files)) [
  | inl missing ↦ rw (missing, Safely) refl
  | inr (dummy, old) ↦ rw (old, Safely) tt
  | inr (file p, old) ↦ elim (Option-cases (d.heap p)) [
    | inl gone ↦
        absurd (ground (arith, gone, i.counted p, pointers-erase p fname (file p) d.files old))
    | inr (f, here) ↦ elim (Bool-cases (f.length == 0)) [
      | inl empty ↦ rw (old, here, empty, Safely) tt
      | inr some_bytes ↦
          rw (old, here, some_bytes, Safely)
            (record {
              is_map = i.is_map;
              counted = λ q. ground (arith, here, i.counted q);
              single = i.single;
              live = λ q. ground (arith, here, i.live q);
              unused = λ q h. ground (arith, here, i.unused q);
            })
    ]
  ]
]
