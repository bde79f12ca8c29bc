-- ===== src/Storage/FileMap.antt =====
-- `std::unordered_map<std::string, RAMFile *>`, as an association list of names and slots.
pub mod Laws
use lucanthrope.Base.{
  ℕ, ◌+◌, Bool, String, List, [], ◌∷◌, map, Option, none, some, str_eq, if◌then◌else◌, length, ◌==◌,
}

-- A `RAMFile *` of the map: `&dummy_file`, or a pointer to a file.
pub data Slot : Type 0 where
  dummy : Slot
  file : ℕ → Slot

abbrev pub Files : Type 0
Files = List (String × Slot)

-- `files.find(fname)`
unfoldable pub find : String → Files → Option Slot
find fname [] = none
find fname ((k, v) ∷ rest) = if str_eq k fname then some v else find fname rest

-- `files[fname] = slot`
unfoldable pub put : String → Slot → Files → Files
put fname slot [] = (fname, slot) ∷ []
put fname slot ((k, v) ∷ rest) =
    if str_eq k fname then (k, slot) ∷ rest else (k, v) ∷ put fname slot rest

-- `files.erase(files.find(fname))`
unfoldable pub erase : String → Files → Files
erase fname [] = []
erase fname ((k, v) ∷ rest) = if str_eq k fname then rest else (k, v) ∷ erase fname rest

unfoldable pub names : Files → List String
names [] = []
names ((k, v) ∷ rest) = k ∷ names rest

abbrev pub points : ℕ → Slot → ℕ
points p dummy = 0
points p (file q) = if p == q then 1 else 0

-- How many slots point to `p`.
unfoldable pub pointers : ℕ → Files → ℕ
pointers p [] = 0
pointers p ((k, v) ∷ rest) = points p v + pointers p rest
