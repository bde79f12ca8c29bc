-- ===== src/Analysis/Token.antt =====
-- Token and TokenStream of include/lucanthrope/analysis/Analysis.h.
pub mod Printing
use Prim.Native.Char.{code}
use Prim.Native.String.{[] as empty_text, ◌∷◌ as char_before}
use lucanthrope.Base.{ℕ, String, ◌%◌, ◌^◌, ◌≡◌, Bool, true, false, List, [], ◌∷◌}
use lucanthrope.Exception.{ok, Action}

-- The characters of an ASCII literal.
unfoldable pub bytes_of : String → List ℕ
bytes_of empty_text = []
bytes_of (char_before c s) = code c ∷ bytes_of s

-- Texts are lists of bytes. `end_pos` is an `int`: its bit pattern is kept.
pub record Token : Type 0 where
  pub term_text : List ℕ
  pub start_pos : ℕ
  pub end_pos : ℕ
  pub type : List ℕ

-- `Token(text, start, end)`
abbrev pub new_token : List ℕ → ℕ → ℕ → Token
new_token text start end = record {
  term_text = text;
  start_pos = start;
  end_pos = end % 2 ^ 32;
  type = [];
}

-- `Token(text, start, end, type)`
abbrev pub new_typed_token : List ℕ → ℕ → ℕ → List ℕ → Token
new_typed_token text start end kind = record {
  term_text = text;
  start_pos = start;
  end_pos = end % 2 ^ 32;
  type = kind;
}

-- `Token()` leaves the positions indeterminate; they are not read before `next` sets them.
abbrev pub no_token : Token
no_token = record { term_text = []; start_pos = 0; end_pos = 0; type = [] }

-- The virtual functions of a TokenStream with state `S`.
pub record TokenStream (S : Type 0) : Type 0 where
  pub next : Action S Bool
  pub get_token : S → Token

-- The stream delivers these tokens, one for each call of `next`, and then reports its end.
abbrev pub Delivers : {S : Type 0} → TokenStream S → S → List Token → Type 0
Delivers {S} stream s [] = (s' : S) × (stream.next s ≡ ok false s')
Delivers {S} stream s (t ∷ ts) =
    (s' : S) × (stream.next s ≡ ok true s') × (stream.get_token s' ≡ t) × Delivers stream s' ts
