-- ===== src/Document/Laws.antt =====
-- What the factories of Field promise, and which field `find` finds.
use lucanthrope.Base.{
  ◌+◌, ◌≡◌, ◌≢◌, ◌⊎◌, refl, true, false, not, ◌&&◌, ◌||◌, String, [], ◌∷◌, none, some, length,
  get_elem?, str_eq, str_eq_iff, if◌then◌else◌, All, take, arith, ltb, Bool-cases, inl, inr,
}
use lucanthrope.Exception.{aborts, Returns}
use lucanthrope.Document.{
  Value, string_value, istream_value, Field, new_field, new_istream_field, keyword, unindexed, text,
  unstored, istream_text, is_istream_value, Document, add, find,
}

-- The name is not empty, what is tokenized is indexed, the field is stored or indexed, and a stream
-- is not stored.
abbrev pub IsField : {Stream : Type 0} → Field Stream → Type 0
IsField f =
    (f.name ≢ "")
    × ((f.is_tokenized && not f.is_indexed) ≡ false)
    × ((f.is_stored || f.is_indexed) ≡ true)
    × ((is_istream_value f && f.is_stored) ≡ false)

-- A well-formed field with this value.
abbrev pub IsMade : {Stream : Type 0} → Value Stream → Field Stream → Type 0
IsMade v f = IsField f × (f.value ≡ v)

-- With a name and a value that are not empty, or a stream that is not null, each factory returns a
-- field with that value that is well formed: its name is not empty, it is stored or indexed, it is
-- only tokenized if it is indexed, and a stream is not stored. Keywords are not tokenized,
-- unindexed fields not indexed, and unstored fields not stored.
pub factories_lem :
    {Stream W : Type 0} (name value : String) (stream : Stream) (w : W)
    → name ≢ ""
    → value ≢ ""
    → Returns
        (keyword {Stream = Stream} name value w)
        (λ f v. IsMade (string_value value) f × (f.is_stored ≡ true) × (f.is_tokenized ≡ false))
      × Returns
          (unindexed {Stream = Stream} name value w)
          (λ f v. IsMade (string_value value) f × (f.is_stored ≡ true) × (f.is_indexed ≡ false))
      × Returns
          (text {Stream = Stream} name value w)
          (λ f v. IsMade (string_value value) f × (f.is_stored ≡ true) × (f.is_tokenized ≡ true))
      × Returns
          (unstored {Stream = Stream} name value w)
          (λ f v. IsMade (string_value value) f × (f.is_stored ≡ false) × (f.is_tokenized ≡ true))
      × Returns
          (istream_text name (some stream) w)
          (λ f v. IsMade (istream_value (some stream)) f × (f.is_tokenized ≡ true))
unfolding keyword unindexed text unstored istream_text new_field new_istream_field is_istream_value
factories_lem name value stream w some_name some_value =
    let named : str_eq name "" ≡ false = ground (arith, str_eq_iff name "") in
    let valued : str_eq value "" ≡ false = ground (arith, str_eq_iff value "") in
    (
      rw (named, valued, Returns) (((some_name, refl, refl, refl), refl), refl, refl),
      rw (named, valued, Returns) (((some_name, refl, refl, refl), refl), refl, refl),
      rw (named, valued, Returns) (((some_name, refl, refl, refl), refl), refl, refl),
      rw (named, valued, Returns) (((some_name, refl, refl, refl), refl), refl, refl),
      rw (named, Returns) (((some_name, refl, refl, refl), refl), refl),
    )

-- An empty name, an empty value or a null stream fails an assertion in each factory.
pub factories_abort :
    {Stream W : Type 0} (name : String) (w : W)
    → (keyword {Stream = Stream} "" name w ≡ aborts)
      × (unindexed {Stream = Stream} name "" w ≡ aborts)
      × (text {Stream = Stream} "" name w ≡ aborts)
      × (unstored {Stream = Stream} name "" w ≡ aborts)
      × (istream_text {Stream = Stream} name none w ≡ aborts)
unfolding keyword unindexed text unstored istream_text new_field new_istream_field
factories_abort name w = elim (Bool-cases (str_eq name "")) [
  | inl empty ↦ (
    ground arith,
    ground (arith, empty),
    ground arith,
    ground (arith, empty),
    ground (arith, empty),
  )
  | inr some_name ↦ (
    ground arith,
    ground (arith, some_name),
    ground arith,
    ground (arith, some_name),
    ground (arith, some_name),
  )
]

-- `find` returns the place of the first field with the name, or the end if no field has it.
pub find_lem :
    {Stream : Type 0} (name : String) (fields : Document Stream)
    → All (λ g. g.name ≢ name) (take (find name fields) fields)
      × (((f : Field Stream) × (get_elem? fields (find name fields) ≡ some f) × (f.name ≡ name))
          ⊎ (find name fields ≡ length fields))
unfolding find
find_lem name [] = (tt, inr refl)
find_lem name (f ∷ fields) = elim (Bool-cases (str_eq f.name name)) [
  | inl same ↦ rw same (tt, inl (f, refl, ground (arith, same, str_eq_iff f.name name)))
  | inr other ↦
      let (before, there) = find_lem name fields in
      rw other (
        (ground (arith, other, str_eq_iff f.name name), before),
        elim there [ inl found ↦ inl found | inr end_ ↦ inr (omega arith) ],
      )
]

-- After `add`, `find` returns for a field that was found before the place it had, else the place
-- of the new field if that has the name, and else the end.
pub add-find_lem :
    {Stream : Type 0} (name : String) (f : Field Stream) (fields : Document Stream)
    → find name (add f fields) ≡ (
        if ltb (find name fields) (length fields)
        then find name fields
        else if str_eq f.name name
        then length fields
        else length fields + 1)
unfolding find add
add-find_lem name f [] = ground arith
add-find_lem name f (g ∷ fields) = ground (arith, add-find_lem name f fields)
