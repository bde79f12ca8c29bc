-- ===== src/Storage/RamDirectory/Behaviour/Listing.antt =====
-- listAll, and the names that it lists.
use lucanthrope.Base.{
  ◌≡◌, refl, String, [], ◌∷◌, none, some, if◌then◌else◌, Option-cases, inl, inr, arith, str_eq_iff,
}
use lucanthrope.Exception.{Returns}
use lucanthrope.Storage.FileMap.{Slot, Files, find, names}
use lucanthrope.Storage.FileMap.Laws.{IsMap, Fresh-find}
use lucanthrope.Storage.RamDirectory.{RamDirectory, file_exists, list_all}
use lucanthrope.Storage.RamDirectory.Worlds.{held}

pub names_lem : (m : Files) (k : String) → IsMap m → find k m ≡ none → held k (names m) ≡ 0
unfolding find names
names_lem [] k i h = refl
names_lem ((j, v) ∷ m) k i h = ground (arith, h, str_eq_iff j k, names_lem m k i.1)

pub names_once :
    (m : Files) (k : String) (v : Slot) → IsMap m → find k m ≡ some v → held k (names m) ≡ 1
unfolding find names
names_once [] k v i h = absurd (ground (arith, h))
names_once ((j, u) ∷ m) k v i h =
    ground (arith, h, str_eq_iff j k, names_once m k v i.1, names_lem m k i.1, Fresh-find j m i.0)

-- In a directory where no name stands twice listAll changes nothing and lists each name that
-- fileExists finds once, and no other.
pub list_all_lem :
    (k : String) (d : RamDirectory)
    → IsMap d.files
    → Returns (list_all d) (λ ns d'.
      (d' ≡ d)
      × Returns (file_exists k d) (λ here e. (e ≡ d) × (held k ns ≡ (if here then 1 else 0))))
unfolding list_all file_exists
list_all_lem k d i = elim (Option-cases (find k d.files)) [
  | inl missing ↦ rw (missing, Returns) (refl, (refl, names_lem d.files k i missing))
  | inr (v, old) ↦ rw (old, Returns) (refl, (refl, names_once d.files k v i old))
]
