-- ===== src/Storage/RamDirectory/Behaviour/Segments.antt =====
-- deleteSegment, on each of its branches.
use lucanthrope.Base.{
  Bool-cases, ◌⊎◌, ◌≡◌, refl, true, false, String, [], ◌∷◌, inl, inr, arith, starts_with,
}
use lucanthrope.Exception.{Outcome, ok, aborts, undefined}
use lucanthrope.Storage.FileMap.{Files, dummy, file}
use lucanthrope.Storage.RamDirectory.{RamDirectory, delete_segment, segment_loop}

abbrev pub NoneStarts : String → Files → Type 0
NoneStarts segment [] = Unit {0}
NoneStarts segment ((k, v) ∷ m) = (starts_with k segment ≡ false) × NoneStarts segment m

abbrev pub SomeStarts : String → Files → Type 0
SomeStarts segment [] = ⊥
SomeStarts segment ((k, v) ∷ m) = (starts_with k segment ≡ true) ⊎ SomeStarts segment m

-- The two ends of `deleteSegment`.
abbrev Ends : String → Files → RamDirectory → Outcome RamDirectory (Unit {0}) → Type 0
Ends segment m d o =
    ((o ≡ ok tt d) × NoneStarts segment m)
    ⊎ (((o ≡ undefined) ⊎ (o ≡ aborts)) × SomeStarts segment m)

segment_loop_lem :
    (segment : String) (m : Files) (d : RamDirectory) → Ends segment m d (segment_loop segment m d)
unfolding segment_loop
segment_loop_lem segment [] d = inl (refl, tt)
segment_loop_lem segment ((k, dummy) ∷ m) d = elim (Bool-cases (starts_with k segment)) [
  | inl starts ↦ inr (inl (ground (arith, starts)), inl starts)
  | inr other ↦
      rw (other, NoneStarts, SomeStarts)
        (elim (segment_loop_lem segment m d) [
          | inl (e, none_of_rest) ↦ inl (e, (refl, none_of_rest))
          | inr (o, some_of_rest) ↦ inr (o, inr some_of_rest)
        ])
]
segment_loop_lem segment ((k, file p) ∷ m) d = elim (Bool-cases (starts_with k segment)) [
  | inl starts ↦ inr (inr (ground (arith, starts)), inl starts)
  | inr other ↦
      rw (other, NoneStarts, SomeStarts)
        (elim (segment_loop_lem segment m d) [
          | inl (e, none_of_rest) ↦ inl (e, (refl, none_of_rest))
          | inr (o, some_of_rest) ↦ inr (o, inr some_of_rest)
        ])
]

-- deleteSegment removes nothing: it returns, with the directory as it was, if no name begins with
-- the segment's, and otherwise its behaviour is undefined or it fails its assertion.
pub delete_segment_lem :
    (segment : String) (d : RamDirectory)
    → ((delete_segment segment d ≡ ok tt d) × NoneStarts segment d.files)
      ⊎ (((delete_segment segment d ≡ undefined) ⊎ (delete_segment segment d ≡ aborts))
          × SomeStarts segment d.files)
unfolding delete_segment
delete_segment_lem segment d = segment_loop_lem segment d.files d
