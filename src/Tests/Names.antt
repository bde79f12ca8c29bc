-- ===== src/Tests/Names.antt =====
-- Runs of the theorems on the names of a directory.
use lucanthrope.Base.{
  ◌⊎◌, ◌≡◌, refl, false, [], ◌∷◌, some, none, arith, str_eq_iff, if◌then◌else◌, ◌==◌,
}
use lucanthrope.Exception.{ok, aborts, undefined, Returns}
use lucanthrope.Storage.RamFile.{new_file}
use lucanthrope.Storage.FileMap.{dummy, file, find}
use lucanthrope.Storage.RamFileIndexOutput.{new_output, close}
use lucanthrope.Storage.RamDirectory.{RamDirectory, rename, close_output, delete_segment}
use lucanthrope.Storage.RamDirectory.Behaviour.{rename_unfinished}
use lucanthrope.Storage.RamDirectory.Behaviour.Segments.{NoneStarts, SomeStarts, delete_segment_lem}

-- A directory with a finished file "a" and an unfinished one "b".
abbrev two_names : RamDirectory
two_names = record {
  files = ("a", file 0) ∷ ("b", dummy) ∷ [];
  heap = λ q. if 0 == q then some (record (new_file "a") { refs = 1 }) else none;
  next = 1;
}

rename_unfinished_example :
    Returns
      (rename (λ m. false) (close (new_output "b")).name "c" two_names)
      (λ u d'. close_output (new_output "b") d' ≡ aborts)
unfolding find close new_output
rename_unfinished_example =
    rename_unfinished (new_output "b") "c" (λ m. false) two_names
      (ground (arith, str_eq_iff "a" "b")) refl refl refl

delete_segment_lem_example :
    ((delete_segment "a" two_names ≡ ok tt two_names) × NoneStarts "a" two_names.files)
    ⊎ (((delete_segment "a" two_names ≡ undefined) ⊎ (delete_segment "a" two_names ≡ aborts))
        × SomeStarts "a" two_names.files)
delete_segment_lem_example = delete_segment_lem "a" two_names
