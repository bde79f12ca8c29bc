-- ===== src/Document.antt =====
-- Field and Document of include/lucanthrope/document/Document.h.
pub mod Laws
pub mod Printing
pub mod Building
use Prim.Native.String.{◌++◌ as str_append}
use lucanthrope.Base.{
  ℕ, zero, suc, ◌+◌, ◌-◌, Bool, true, false, not, String, List, [], ◌∷◌, ◌++◌, Option, none, some,
  length, get_elem?, str_eq, if◌then◌else◌,
}
use lucanthrope.Exception.{Outcome, ok, aborts, Action, assert, pure, ◌>>=◌, ◌>>◌}

-- `std::variant<std::string, std::unique_ptr<std::istream>>`; a stream, if it is not null, is
-- whatever the caller passed.
pub data Value (Stream : Type 0) : Type 0 where
  string_value : String → Value Stream
  istream_value : Option Stream → Value Stream

pub record Field (Stream : Type 0) : Type 0 where
  pub name : String
  pub value : Value Stream
  pub is_stored : Bool
  pub is_indexed : Bool
  pub is_tokenized : Bool

-- `!s.empty()`
abbrev pub non_empty : String → Bool
non_empty s = not (str_eq s "")

abbrev pub is_some : {Stream : Type 0} → Option Stream → Bool
is_some none = false
is_some (some s) = true

module _ {Stream W : Type 0} where
  -- `Field(name, value, store, index, token)`
  pub new_field : String → String → Bool → Bool → Bool → Action W (Field Stream)
  new_field name value store index token = do
    assert (non_empty name)
    assert (non_empty value)
    pure (record {
      name = name;
      value = string_value value;
      is_stored = store;
      is_indexed = index;
      is_tokenized = token;
    })

  -- `Field(name, value)` for a stream.
  pub new_istream_field : String → Option Stream → Action W (Field Stream)
  new_istream_field name value = do
    assert (non_empty name)
    assert (is_some value)
    pure (record {
      name = name;
      value = istream_value value;
      is_stored = false;
      is_indexed = true;
      is_tokenized = true;
    })

  pub keyword : String → String → Action W (Field Stream)
  unfolding new_field
  keyword name value = new_field name value true true false

  pub unindexed : String → String → Action W (Field Stream)
  unfolding new_field
  unindexed name value = new_field name value true false false

  pub text : String → String → Action W (Field Stream)
  unfolding new_field
  text name value = new_field name value true true true

  pub unstored : String → String → Action W (Field Stream)
  unfolding new_field
  unstored name value = new_field name value false true true

  pub istream_text : String → Option Stream → Action W (Field Stream)
  unfolding new_istream_field
  istream_text name value = new_istream_field name value

module _ {Stream : Type 0} where
  pub is_string_value : Field Stream → Bool
  is_string_value f = elim f.value [ string_value s ↦ true | istream_value s ↦ false ]

  pub is_istream_value : Field Stream → Bool
  is_istream_value f = elim f.value [ string_value s ↦ false | istream_value s ↦ true ]

  -- `getStringValue()` and `getIStreamValue()`
  pub get_string_value : {W : Type 0} → Field Stream → Action W String
  get_string_value f w = elim f.value [ string_value s ↦ ok s w | istream_value s ↦ aborts ]

  pub get_istream_value : {W : Type 0} → Field Stream → Action W (Option Stream)
  get_istream_value f w = elim f.value [ string_value s ↦ aborts | istream_value s ↦ ok s w ]

  pub field_to_string : Field Stream → String
  unfolding is_string_value
  field_to_string f = str_append f.name (
      str_append "(" (
        str_append (if f.is_stored then "stored," else "not stored,") (
          str_append (if f.is_indexed then "indexed," else "not indexed,") (
            str_append (if f.is_tokenized then "tokenized," else "not tokenized,")
              (if is_string_value f then "string value)" else "istream value)")))))

-- `fields_`
abbrev pub Document : Type 0 → Type 0
Document Stream = List (Field Stream)

module _ {Stream : Type 0} where
  pub add : Field Stream → Document Stream → Document Stream
  add field fields = fields ++ (field ∷ [])

  -- How far the iterator that is returned stands behind `begin()`.
  pub find : String → Document Stream → ℕ
  find name [] = 0
  find name (f ∷ fields) =
      let later = find name fields in if str_eq f.name name then 0 else suc later

  -- The loop of `toString`: `i` goes up to `fields_.size()`.
  pub to_string_rounds : Document Stream → ℕ → ℕ → String → String
  unfolding field_to_string
  to_string_rounds fields zero i ret = ret
  to_string_rounds fields (suc rounds) i ret = elim (get_elem? fields i) [
    | none ↦ ret
    | some f ↦
        to_string_rounds fields rounds (i + 1)
          (str_append (str_append ret ", ") (field_to_string f))
  ]

  pub to_string : Document Stream → String
  unfolding to_string_rounds field_to_string
  to_string [] = str_append "Document<" ">"
  to_string (f ∷ fields) =
      str_append
        (to_string_rounds (f ∷ fields) (length fields) 1
          (str_append "Document<" (field_to_string f)))
        ">"
