-- ===== src/Io/RoundTrip/Strings.antt =====
-- `writeString` and `readString`.
use lucanthrope.Base.{
  ℕ, ◌%◌, ◌^◌, ◌≤◌, ◌<◌, ◌≡◌, ◌⊎◌, ap, ◌∙◌, Bool, List, [], ◌∷◌, ◌++◌, length, append_assoc,
  append-nil, arith,
}
use lucanthrope.Exception.{ok}
use lucanthrope.Io.IndexInput.{InputImpl, push_bytes, read_string}
use lucanthrope.Io.IndexInput.Source.{IsSource, read_byte-Ahead}
use lucanthrope.Io.RoundTrip.Varint.{read_varint32-varint32_buf}
use lucanthrope.Io.Encode.{varint32_buf}

-- What `writeString` writes: the size as a varint, then the characters.
abbrev pub string_bytes : List ℕ → List ℕ
string_bytes str = varint32_buf (length str % 2 ^ 32) ++ str

module _ {S : Type 0} {impl : InputImpl S} (src : IsSource impl) where
  open src use {Ahead}

  push_bytes-Ahead :
      (bs buff : List ℕ) (ends : Bool) (s : S) (rest : List ℕ)
      → Ahead ends s (bs ++ rest)
      → (s' : S) × (push_bytes ⦃impl = impl⦄ (length bs) buff s ≡ ok (buff ++ bs) s')
        × Ahead ends s' rest
  unfolding push_bytes
  push_bytes-Ahead [] buff ends s rest a = (s, rw append-nil, a)
  push_bytes-Ahead (b ∷ bs) buff ends s rest a =
      let (s1, e1, a1) = read_byte-Ahead src ends s b (bs ++ rest) a in
      let (s2, e2, a2) = push_bytes-Ahead bs (buff ++ (b ∷ [])) ends s1 rest a1 in
      (s2, rw e1 (e2 ∙ ap (λ t. ok t s2) (append_assoc buff (b ∷ []) bs)), a2)

  -- With the bytes of `writeString(str)` ahead, `readString` returns `str` and consumes just these,
  -- if the size of `str` is below 2 ^ 21, or at least 2 ^ 28 and below 2 ^ 32.
  pub read_string-string_bytes :
      (str : List ℕ) (ends : Bool) (s : S) (rest : List ℕ)
      → length str < 2 ^ 32
      → (length str < 2 ^ 21) ⊎ (2 ^ 28 ≤ length str)
      → Ahead ends s (string_bytes str ++ rest)
      → (s' : S) × (read_string ⦃impl = impl⦄ s ≡ ok str s') × Ahead ends s' rest
  unfolding read_string
  read_string-string_bytes str ends s rest h range a =
      let size : length str % 2 ^ 32 ≡ length str = omega arith in
      let (s1, e1, a1) =
        read_varint32-varint32_buf src (length str) ends s (str ++ rest) h range
          (rw (size, append_assoc) at a) in
      let (s2, e2, a2) = push_bytes-Ahead str [] ends s1 rest a1 in (s2, rw e1 e2, a2)
