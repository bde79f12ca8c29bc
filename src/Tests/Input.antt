-- ===== src/Tests/Input.antt =====
-- Runs of the theorems on the functions of IndexInput.
use lucanthrope.Base.{ℕ, ◌/◌, ◌≡◌, ◌≢◌, refl, inl, Bool, false, List, [], ◌∷◌, ◌++◌, arith}
use lucanthrope.Exception.{ok}
use lucanthrope.Io.Encode.{varint32_buf, varint64_buf}
use lucanthrope.Io.IndexInput.{read_varint32, read_varint64}
use lucanthrope.Io.RoundTrip.Varint.{
  read_varint64-varint64_buf, read_varint32-varint32_buf, read_varint32_gap,
}
use lucanthrope.Io.Items.{Kind, read_items}
use lucanthrope.Io.Decoder.{corrupt, decode_items}
use lucanthrope.Io.Decoder.Varints.{Decodes}
use lucanthrope.Io.Decoder.Sequences.{reads_decode}
use lucanthrope.Tests.Bytes.{ByteStream, unread, byte_stream, byte_stream-IsSource}

abbrev Ahead : Bool → ByteStream → List ℕ → Type 0
Ahead = byte_stream-IsSource.Ahead

read_varint64-varint64_buf_example :
    (s' : ByteStream) × (read_varint64 ⦃impl = byte_stream⦄ (unread (varint64_buf 300 ++ (7 ∷ [])))
      ≡ ok 300 s')
    × Ahead false s' (7 ∷ [])
unfolding byte_stream-IsSource
read_varint64-varint64_buf_example =
    read_varint64-varint64_buf byte_stream-IsSource 300 false
      (unread (varint64_buf 300 ++ (7 ∷ []))) (7 ∷ []) (omega arith) refl

-- A number for which `writeVarint32` writes all groups, and one for which it leaves out the first.
read_varint32-varint32_buf_example :
    (s' : ByteStream) × (read_varint32 ⦃impl = byte_stream⦄ (unread (varint32_buf 300 ++ (7 ∷ [])))
      ≡ ok 300 s')
    × Ahead false s' (7 ∷ [])
unfolding byte_stream-IsSource
read_varint32-varint32_buf_example =
    read_varint32-varint32_buf byte_stream-IsSource 300 false
      (unread (varint32_buf 300 ++ (7 ∷ []))) (7 ∷ []) (omega arith) (inl (omega arith)) refl

read_varint32_gap_example :
    (s' : ByteStream) × (read_varint32 ⦃impl = byte_stream⦄ (unread (varint32_buf 3000000 ++ []))
      ≡ ok (3000000 / 128) s')
    × Ahead false s' []
    × (3000000 / 128 ≢ 3000000)
unfolding byte_stream-IsSource
read_varint32_gap_example =
    read_varint32_gap byte_stream-IsSource 3000000 false (unread (varint32_buf 3000000 ++ [])) []
      (omega arith) (omega arith) refl

abbrev hello : List ℕ
hello = 104 ∷ 101 ∷ 108 ∷ 108 ∷ 111 ∷ []

abbrev five_bytes : List ℕ
five_bytes = 128 ∷ 129 ∷ 130 ∷ 131 ∷ 255 ∷ []

-- A varint that does not fit into 32 bits, a string, and three bytes of four.
abbrev odd_bytes : List ℕ
odd_bytes = 255 ∷ 255 ∷ 255 ∷ 255 ∷ 127 ∷ 2 ∷ 104 ∷ 105 ∷ 1 ∷ 2 ∷ 3 ∷ []

abbrev odd_kinds : List Kind
odd_kinds = Kind.varint32 ∷ Kind.string ∷ Kind.int32 ∷ []

odd_bytes-decoded : decode_items odd_kinds odd_bytes ≡ corrupt []
unfolding decode_items
odd_bytes-decoded = refl

reads_decode_example :
    Decodes byte_stream-IsSource
      (read_items ⦃impl = byte_stream⦄ odd_kinds (unread odd_bytes))
      (decode_items odd_kinds odd_bytes)
unfolding byte_stream-IsSource
reads_decode_example =
    reads_decode byte_stream-IsSource odd_kinds (unread odd_bytes) odd_bytes (refl, ground arith)
