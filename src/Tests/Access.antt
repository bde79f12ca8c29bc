-- ===== src/Tests/Access.antt =====
-- Runs of the theorems on files that are written and read in any order.
use lucanthrope.Base.{ℕ, ◌≡◌, refl, some, List, [], ◌∷◌}
use lucanthrope.Io.Items.{Item}
use lucanthrope.Storage.RamFileIndexOutput.{new_output}
use lucanthrope.Storage.WriteRead.Edits.{
  Edit, writes, seeks, flushes, Text, empty_text, Matches, edit, edits, run_edits,
}
use lucanthrope.Storage.WriteRead.Edits.Refined.{edits_refine}
use lucanthrope.Tests.Directory.{zeros}

-- Three bytes are written, and then the last two of them and one behind.
abbrev pub four_edits : List Edit
four_edits =
    writes (Item.bytes (1 ∷ 2 ∷ 3 ∷ []))
    ∷ flushes
    ∷ seeks 1
    ∷ writes (Item.bytes (7 ∷ 8 ∷ 9 ∷ []))
    ∷ []

abbrev pub four_bytes : Text
four_bytes = record { bytes = 1 ∷ 7 ∷ 8 ∷ 9 ∷ []; at = 4 }

edits_refine_example :
    Matches "a" (run_edits zeros four_edits (new_output "a")) (edits four_edits empty_text)
edits_refine_example = edits_refine zeros "a" four_edits

pub four_edits-text : edits four_edits empty_text ≡ some four_bytes
unfolding edits edit
four_edits-text = refl

abbrev pub two_parts : List (ℕ × ℕ)
two_parts = (2, 2) ∷ (0, 3) ∷ []
