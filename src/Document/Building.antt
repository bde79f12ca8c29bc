-- ===== src/Document/Building.antt =====
-- Documents that are built from the factories of Field.
use lucanthrope.Base.{
  ◌≡◌, ◌⊎◌, refl, sym, ap, ◌&&◌, ◌||◌, Bool, true, false, String, List, [], ◌∷◌, ◌++◌, Option, none,
  some, All, map, str_eq, str_eq_iff, inl, inr, Bool-cases, arith, append-nil, append_assoc, not,
}
use lucanthrope.Exception.{Outcome, ok, aborts, Action, pure, modify, ◌>>=◌, ◌>>◌}
use lucanthrope.Document.{
  Value, string_value, istream_value, Field, new_field, new_istream_field, keyword, unindexed, text,
  unstored, istream_text, is_istream_value, Document, add,
}
use lucanthrope.Document.Laws.{IsField}

-- A call of a factory.
pub data Making (Stream : Type 0) : Type 0 where
  keywords unindexeds texts unstoreds : String → String → Making Stream
  istream_texts : String → Option Stream → Making Stream

module _ {Stream : Type 0} where
  pub make : {W : Type 0} → Making Stream → Action W (Field Stream)
  make (keywords name value) = keyword name value
  make (unindexeds name value) = unindexed name value
  make (texts name value) = text name value
  make (unstoreds name value) = unstored name value
  make (istream_texts name value) = istream_text name value

  -- Each field is added as it is made.
  pub build : List (Making Stream) → Action (Document Stream) (Unit {0})
  build [] = pure tt
  build (m ∷ ms) = do f ← make m; modify (add f); build ms

  -- The name and the value that the caller passes.
  abbrev pub asked : Making Stream → String × Value Stream
  asked (keywords name value) = (name, string_value value)
  asked (unindexeds name value) = (name, string_value value)
  asked (texts name value) = (name, string_value value)
  asked (unstoreds name value) = (name, string_value value)
  asked (istream_texts name value) = (name, istream_value value)

  abbrev pub IsEmpty : String × Value Stream → Type 0
  IsEmpty (name, string_value value) = (name ≡ "") ⊎ (value ≡ "")
  IsEmpty (name, istream_value value) = (name ≡ "") ⊎ (value ≡ none)

  abbrev pub SomeEmpty : List (Making Stream) → Type 0
  SomeEmpty [] = ⊥
  SomeEmpty (m ∷ ms) = IsEmpty (asked m) ⊎ SomeEmpty ms

  -- The factory fails its assertion, or makes a field.
  abbrev Makes : {W : Type 0} → W → String × Value Stream → Outcome W (Field Stream) → Type 0
  Makes w p o =
      ((o ≡ aborts) × IsEmpty p)
      ⊎ ((¬ IsEmpty p) × (f : Field Stream) × (o ≡ ok f w) × IsField f × ((f.name, f.value) ≡ p))

  new_field-Makes :
      {W : Type 0} (name value : String) (store index token : Bool) (w : W)
      → (token && not index) ≡ false
      → (store || index) ≡ true
      → Makes w (name, string_value value) (new_field name value store index token w)
  unfolding new_field is_istream_value
  new_field-Makes name value store index token w h k = elim (Bool-cases (str_eq name "")) [
    | inl empty ↦ inl (ground (arith, empty), inl (ground (arith, empty, str_eq_iff name "")))
    | inr named ↦ elim (Bool-cases (str_eq value "")) [
      | inl empty ↦
          inl (ground (arith, named, empty), inr (ground (arith, empty, str_eq_iff value "")))
      | inr valued ↦ inr (
        (λ e. elim e [
          | inl no_name ↦ ground (arith, named, no_name, str_eq_iff name "")
          | inr no_value ↦ ground (arith, valued, no_value, str_eq_iff value "")
        ]),
        _,
        rw (new_field, named, valued) refl,
        (ground (arith, named, str_eq_iff name ""), h, k, refl),
        refl,
      )
    ]
  ]

  new_istream_field-Makes :
      {W : Type 0} (name : String) (value : Option Stream) (w : W)
      → Makes w (name, istream_value value) (new_istream_field name value w)
  unfolding new_istream_field is_istream_value
  new_istream_field-Makes name none w = elim (Bool-cases (str_eq name "")) [
    | inl empty ↦ inl (ground (arith, empty), inr refl)
    | inr named ↦ inl (ground (arith, named), inr refl)
  ]
  new_istream_field-Makes name (some stream) w = elim (Bool-cases (str_eq name "")) [
    | inl empty ↦ inl (ground (arith, empty), inl (ground (arith, empty, str_eq_iff name "")))
    | inr named ↦ inr (
      (λ e. elim e [
        | inl no_name ↦ ground (arith, named, no_name, str_eq_iff name "")
        | inr no_value ↦ cc (no_value)
      ]),
      record {
        name = name;
        value = istream_value (some stream);
        is_stored = false;
        is_indexed = true;
        is_tokenized = true;
      },
      rw (new_istream_field, named) refl,
      (ground (arith, named, str_eq_iff name ""), refl, refl, refl),
      refl,
    )
  ]

  make_lem : {W : Type 0} (m : Making Stream) (w : W) → Makes w (asked m) (make m w)
  unfolding make keyword unindexed text unstored istream_text
  make_lem (keywords name value) w = new_field-Makes name value true true false w refl refl
  make_lem (unindexeds name value) w = new_field-Makes name value true false false w refl refl
  make_lem (texts name value) w = new_field-Makes name value true true true w refl refl
  make_lem (unstoreds name value) w = new_field-Makes name value false true true w refl refl
  make_lem (istream_texts name value) w = new_istream_field-Makes name value w

  abbrev pub named_values : Document Stream → List (String × Value Stream)
  named_values = map (λ (f : Field Stream). (f.name, f.value))

  -- A call fails its assertion, or the fields that are made are added.
  abbrev Builds :
      Document Stream → List (Making Stream) → Outcome (Document Stream) (Unit {0}) → Type 0
  Builds d ms o =
      ((o ≡ aborts) × SomeEmpty ms)
      ⊎ ((¬ SomeEmpty ms)
          × (fields : List (Field Stream)) × (o ≡ ok tt (d ++ fields))
          × All IsField fields
          × (named_values fields ≡ map asked ms))

  build_lem : (ms : List (Making Stream)) (d : Document Stream) → Builds d ms (build ms d)
  unfolding build add
  build_lem [] d = inr (λ e. elim e [ ], [], ap (λ e. ok tt e) (sym (append-nil d)), tt, refl)
  build_lem (m ∷ ms) d = elim (make_lem m d) [
    | inl (fails, empty) ↦ inl (rw (build, fails) refl, inl empty)
    | inr (full, f, made, good, same) ↦ elim (build_lem ms (add f d)) [
      | inl (fails, empty) ↦ inl (rw (build, made, fails) refl, inr empty)
      | inr (all_full, fields, builds, all_good, all_same) ↦ inr (
        (λ e. elim e [ inl empty ↦ full empty | inr empty ↦ all_full empty ]),
        f ∷ fields,
        rw (build, made, builds) (ap (λ e. ok tt e) (append_assoc d (f ∷ []) fields)),
        (good, all_good),
        cc (same, all_same),
      )
    ]
  ]

  -- A document to which the fields are added that a sequence of factory calls makes: if a name or a
  -- value is empty or a stream null, an assertion fails; else the calls return, the document has one
  -- field for each of them in their order, with the name and the value that were passed, and each
  -- field is well formed: its name is not empty, it is stored or indexed, what is tokenized is
  -- indexed, and a stream is not stored.
  pub documents_lem :
      (ms : List (Making Stream))
      → ((build ms [] ≡ aborts) × SomeEmpty ms)
        ⊎ ((¬ SomeEmpty ms)
            × (fields : Document Stream) × (build ms [] ≡ ok tt fields)
            × All IsField fields
            × (named_values fields ≡ map asked ms))
  documents_lem ms = build_lem ms []
