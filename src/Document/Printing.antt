-- ===== src/Document/Printing.antt =====
-- What Document::toString and Field::toString print.
use Prim.Native.String.{◌++◌ as str_append}
use text.Mathlib.TextLemmas.{append-nil as str_append-nil, append_assoc as str_append_assoc}
use lucanthrope.Base.{
  ◌+◌, ◌≡◌, refl, sym, ◌∙◌, ap, String, List, [], ◌∷◌, ◌++◌, some, length, length-append, get_elem?,
  append_assoc,
}
use lucanthrope.Document.{Field, Document, field_to_string, to_string_rounds, to_string}

-- The fields, each behind a comma.
pub commas : {Stream : Type 0} → List (Field Stream) → String
commas [] = ""
commas (f ∷ fields) = str_append ", " (str_append (field_to_string f) (commas fields))

-- The texts of the fields, with commas between.
pub joined : {Stream : Type 0} → List (Field Stream) → String
joined [] = ""
joined (f ∷ fields) = str_append (field_to_string f) (commas fields)

get_elem?-middle {ℓ} :
    {A : Type ℓ} (xs ys : List A) (y : A) → get_elem? (xs ++ y ∷ ys) (length xs) ≡ some y
get_elem?-middle [] ys y = refl
get_elem?-middle (x ∷ xs) ys y = get_elem?-middle xs ys y

to_string_rounds_lem :
    {Stream : Type 0} (before fields : List (Field Stream)) (ret : String)
    → to_string_rounds (before ++ fields) (length fields) (length before) ret
      ≡ str_append ret (commas fields)
unfolding to_string_rounds commas
to_string_rounds_lem before [] ret = sym (str_append-nil ret)
to_string_rounds_lem before (f ∷ fields) ret =
    let here = get_elem?-middle before fields f in
    let longer =
      to_string_rounds_lem (before ++ (f ∷ [])) fields
        (str_append (str_append ret ", ") (field_to_string f)) in
    let next : length (before ++ (f ∷ [])) ≡ length before + 1 = length-append before (f ∷ []) in
    let rest = rw (append_assoc before (f ∷ []) fields, next) at longer in
    rw (here, to_string_rounds)
      (rest
        ∙ str_append_assoc (str_append ret ", ") (field_to_string f) (commas fields)
        ∙ str_append_assoc ret ", " (str_append (field_to_string f) (commas fields)))

-- A document prints as the texts of its fields in their order, with ", " between two of them,
-- between "Document<" and ">".
pub to_string_lem :
    {Stream : Type 0} (fields : Document Stream)
    → to_string fields ≡ str_append "Document<" (str_append (joined fields) ">")
unfolding to_string joined commas
to_string_lem [] = refl
to_string_lem (f ∷ fields) =
    rw (to_string_rounds_lem (f ∷ []) fields (str_append "Document<" (field_to_string f))) (
      ap (λ (t : String). str_append t ">")
        (str_append_assoc "Document<" (field_to_string f) (commas fields))
      ∙ str_append_assoc "Document<" (str_append (field_to_string f) (commas fields)) ">")
