-- ===== src/Tests/Documents.antt =====
-- Runs of the theorems on documents.
use Prim.Native.String.{◌++◌ as str_append}
use lucanthrope.Base.{◌≡◌, ◌⊎◌, true, false, String, List, [], ◌∷◌, some, All}
use lucanthrope.Exception.{ok, aborts}
use lucanthrope.Analysis.CharTokenizer.{IStream}
use lucanthrope.Document.{string_value, istream_value, Field, Document, to_string}
use lucanthrope.Document.Laws.{IsField}
use lucanthrope.Document.Building.{
  Making, keywords, istream_texts, build, SomeEmpty, named_values, documents_lem,
}
use lucanthrope.Document.Printing.{joined, to_string_lem}

abbrev named : String → Field IStream
named name = record {
  name = name;
  value = string_value "x";
  is_stored = true;
  is_indexed = true;
  is_tokenized = false;
}

abbrev three_fields : Document IStream
three_fields = named "url" ∷ named "date" ∷ named "url" ∷ []

to_string_lem_example :
    to_string three_fields ≡ str_append "Document<" (str_append (joined three_fields) ">")
to_string_lem_example = to_string_lem three_fields

abbrev text_stream : IStream
text_stream = record { chars = 104 ∷ 105 ∷ []; eof = false }

abbrev two_calls : List (Making IStream)
two_calls = keywords "id" "7" ∷ istream_texts "body" (some text_stream) ∷ []

documents_lem_example :
    ((build two_calls [] ≡ aborts) × SomeEmpty two_calls)
    ⊎ ((¬ SomeEmpty two_calls)
        × (fields : Document IStream) × (build two_calls [] ≡ ok tt fields)
        × All IsField fields
        × (named_values fields
            ≡ ("id", string_value "7") ∷ ("body", istream_value (some text_stream)) ∷ []))
documents_lem_example = documents_lem two_calls
