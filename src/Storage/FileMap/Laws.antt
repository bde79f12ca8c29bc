-- ===== src/Storage/FileMap/Laws.antt =====
-- The laws of the map.
use lucanthrope.Base.{
  ℕ, ◌+◌, ◌≡◌, ◌≢◌, refl, String, [], ◌∷◌, none, some, str_eq, str_eq_iff, if◌then◌else◌, arith,
}
use lucanthrope.Storage.FileMap.{Slot, Files, find, put, erase, points, pointers}

-- No name stands twice.
abbrev pub Fresh : String → Files → Type 0
Fresh fname [] = Unit {0}
Fresh fname ((k, v) ∷ rest) = (k ≢ fname) × Fresh fname rest

abbrev pub IsMap : Files → Type 0
IsMap [] = Unit {0}
IsMap ((k, v) ∷ rest) = Fresh k rest × IsMap rest

pub find-put :
    (k j : String) (v : Slot) (m : Files)
    → find j (put k v m) ≡ (if str_eq k j then some v else find j m)
unfolding find put
find-put k j v [] = refl
find-put k j v ((i, w) ∷ m) =
    ground (arith, str_eq_iff k j, str_eq_iff i k, str_eq_iff i j, find-put k j v m)

pub Fresh-find : (k : String) (m : Files) → Fresh k m → find k m ≡ none
unfolding find
Fresh-find k [] h = refl
Fresh-find k ((i, w) ∷ m) h = ground (arith, str_eq_iff i k, Fresh-find k m h.1)

pub find-Fresh : (k : String) (m : Files) → find k m ≡ none → Fresh k m
unfolding find
find-Fresh k [] h = tt
find-Fresh k ((i, w) ∷ m) h = ground (arith, str_eq_iff i k, find-Fresh k m)

pub find-erase :
    (k j : String) (m : Files)
    → IsMap m
    → find j (erase k m) ≡ (if str_eq k j then none else find j m)
unfolding find erase
find-erase k j [] h = ground arith
find-erase k j ((i, w) ∷ m) h = ground (
  arith,
  str_eq_iff k j,
  str_eq_iff i k,
  str_eq_iff i j,
  find-erase k j m h.1,
  Fresh-find i m h.0,
)

Fresh-erase : (k j : String) (m : Files) → Fresh j m → Fresh j (erase k m)
unfolding erase
Fresh-erase k j [] h = tt
Fresh-erase k j ((i, w) ∷ m) h = ground (arith, Fresh-erase k j m h.1)

pub erase-IsMap : (k : String) (m : Files) → IsMap m → IsMap (erase k m)
unfolding erase
erase-IsMap k [] h = tt
erase-IsMap k ((i, w) ∷ m) h = ground (arith, erase-IsMap k m h.1, Fresh-erase k i m h.0)

Fresh-put : (k j : String) (v : Slot) (m : Files) → k ≢ j → Fresh j m → Fresh j (put k v m)
unfolding put
Fresh-put k j v [] ne h = (ne, tt)
Fresh-put k j v ((i, w) ∷ m) ne h = ground (arith, Fresh-put k j v m ne h.1)

pub put-IsMap : (k : String) (v : Slot) (m : Files) → IsMap m → IsMap (put k v m)
unfolding put
put-IsMap k v [] h = (tt, tt)
put-IsMap k v ((i, w) ∷ m) h =
    ground (arith, str_eq_iff i k, put-IsMap k v m h.1, Fresh-put k i v m)

-- A new name adds its pointer; an old one trades it.
pub pointers-put_new :
    (p : ℕ) (k : String) (v : Slot) (m : Files)
    → find k m ≡ none
    → pointers p (put k v m) ≡ pointers p m + points p v
unfolding find put pointers
pointers-put_new p k v [] h = omega arith
pointers-put_new p k v ((i, w) ∷ m) h = ground (arith, pointers-put_new p k v m)

pub pointers-put_old :
    (p : ℕ) (k : String) (v u : Slot) (m : Files)
    → find k m ≡ some u
    → pointers p (put k v m) + points p u ≡ pointers p m + points p v
unfolding find put pointers
pointers-put_old p k v u [] h = cc
pointers-put_old p k v u ((i, w) ∷ m) h = ground (arith, pointers-put_old p k v u m)

pub pointers-erase :
    (p : ℕ) (k : String) (u : Slot) (m : Files)
    → find k m ≡ some u
    → pointers p (erase k m) + points p u ≡ pointers p m
unfolding find erase pointers
pointers-erase p k u [] h = cc
pointers-erase p k u ((i, w) ∷ m) h = ground (arith, pointers-erase p k u m)
