-- ===== src/Io/IndexInput.antt =====
-- IndexInput of include/lucanthrope/IO/IndexInput.h and lib/IO/IndexInput.cpp, over whatever a
-- stream implements: its buffer and the virtual function `fillImpl`.
pub mod Source
pub mod Reads
pub mod Malformed
use lucanthrope.Base.{
  ℕ, zero, suc, ◌+◌, ◌-◌, ◌*◌, ◌%◌, ◌^◌, min, bit_and, bit_or, Bool, false, not, List, [], ◌∷◌,
  ◌++◌, length, get_or, ltb, ◌==◌, if◌then◌else◌,
}
use lucanthrope.Exception.{
  diverges, Action, pure, throw, modify, ◌>>=◌, ◌>>◌, index_corruption_exception,
}

-- What the functions of IndexInput use of a stream of type `S`.
pub record InputImpl (S : Type 0) : Type 0 where
  -- `sentinel - bufCur`
  pub get_num_readable_bytes : S → ℕ
  -- `*bufCur++`
  pub next_byte : Action S ℕ
  pub fill_impl : Action S Bool
  -- `pos += n`
  pub move : ℕ → S → S

-- The two lengths of IndexIOBase.
abbrev pub max_varint_length32 : ℕ
max_varint_length32 = 5

abbrev pub max_varint_length64 : ℕ
max_varint_length64 = 10

-- The values that the four and the eight bytes in `buffer` stand for, lowest byte first.
abbrev shifted : ℕ → List ℕ → ℕ → ℕ
shifted width buffer i = get_or buffer i 0 * 2 ^ (8 * i) % 2 ^ width

unfoldable pub int32_value : List ℕ → ℕ
int32_value buffer =
    bit_or (bit_or (bit_or (shifted 32 buffer 0) (shifted 32 buffer 1)) (shifted 32 buffer 2))
      (shifted 32 buffer 3)

abbrev low_half : List ℕ → ℕ
low_half buffer =
    bit_or (bit_or (bit_or (shifted 64 buffer 0) (shifted 64 buffer 1)) (shifted 64 buffer 2))
      (shifted 64 buffer 3)

unfoldable pub int64_value : List ℕ → ℕ
int64_value buffer =
    bit_or
      (bit_or (bit_or (bit_or (low_half buffer) (shifted 64 buffer 4)) (shifted 64 buffer 5))
        (shifted 64 buffer 6))
      (shifted 64 buffer 7)

-- `ret |= (static_cast<uintN_t>(byte) & 0x7f) << (7 * bytes_decoded)`
abbrev pub add_group : ℕ → ℕ → ℕ → ℕ → ℕ
add_group width ret byte decoded = bit_or ret (bit_and byte 0x7f * 2 ^ (7 * decoded) % 2 ^ width)

module _ {S : Type 0} ⦃impl : InputImpl S⦄ where
  pub has_pending_data : S → Bool
  has_pending_data s = ltb 0 (impl.get_num_readable_bytes s)

  -- `!hasPendingData() && !fillImpl()`
  unfoldable pub eof : Action S Bool
  unfolding has_pending_data
  eof s =
      if has_pending_data s
      then pure false s
      else (impl.fill_impl >>= λ filled. pure (not filled)) s

  unfoldable pub read_byte : Action S ℕ
  read_byte = do
    at_end ← eof
    if at_end
        then throw index_corruption_exception
            "in IndexInput::readByte(): cannot read a byte, EOF is reached"
        else do modify (impl.move 1); impl.next_byte

  -- `memcpy(ptr, bufCur, n); bufCur += n`, a byte at a time.
  unfoldable pub copy_bytes : ℕ → Action S (List ℕ)
  copy_bytes zero = pure []
  copy_bytes (suc n) = do b ← impl.next_byte; bs ← copy_bytes n; pure (b ∷ bs)

  -- The loop of `read`: `copied` are the bytes at `ptr` so far, `size` those that are still wanted.
  unfoldable pub read_loop : ℕ → ℕ → List ℕ → Action S (List ℕ)
  read_loop fuel zero copied = pure copied
  read_loop zero (suc size) copied = λ _. diverges
  read_loop (suc fuel) (suc size) copied = do
    at_end ← eof
    if at_end then pure copied else λ s.
        let n = min (impl.get_num_readable_bytes s) (suc size) in
        (copy_bytes n >>= λ bs. read_loop fuel (suc size - n) (copied ++ bs)) s

  -- What `read` stores at `ptr`; its result is the length. A round copies a byte at least.
  unfoldable pub read : ℕ → Action S (List ℕ)
  unfolding read_loop
  read size = do copied ← read_loop size size []; modify (impl.move (length copied)); pure copied

  unfoldable pub read_int32 : Action S ℕ
  read_int32 = do
    buffer ← read 4
    if ltb (length buffer) 4
        then throw index_corruption_exception
            "in IndexInput::readInt32(): cannot read an int, EOF is reached"
        else pure (int32_value buffer)

  unfoldable pub read_int64 : Action S ℕ
  read_int64 = do
    buffer ← read 8
    if ltb (length buffer) 8
        then throw index_corruption_exception
            "in IndexInput::readInt32(): cannot read an int, EOF is reached"
        else pure (int64_value buffer)

  -- The loop of `readVarint32` and `readVarint64`: `rounds` counts down to the maximal length.
  unfoldable pub varint_loop : ℕ → ℕ → ℕ → ℕ → Action S ℕ → Action S ℕ
  varint_loop width zero decoded ret fail = fail
  varint_loop width (suc rounds) decoded ret fail = do
    at_end ← eof
    if at_end then fail else do
      byte ← read_byte
      let ret' = add_group width ret byte decoded
      if bit_and byte 128 == 0 then pure ret' else varint_loop width rounds (decoded + 1) ret' fail

  unfoldable pub read_varint64 : Action S ℕ
  read_varint64 =
      varint_loop 64 max_varint_length64 0 0
        (throw index_corruption_exception "in IndexInput::readVarint64(): cannot parse varint")

  unfoldable pub read_varint32 : Action S ℕ
  read_varint32 =
      varint_loop 32 max_varint_length32 0 0
        (throw index_corruption_exception "in IndexInput::readVarint32(): cannot parse varint")

  -- `while (size--) buff.push_back(readByte())`
  unfoldable pub push_bytes : ℕ → List ℕ → Action S (List ℕ)
  push_bytes zero buff = pure buff
  push_bytes (suc size) buff = do b ← read_byte; push_bytes size (buff ++ (b ∷ []))

  -- What `readString` leaves in `buff`.
  unfoldable pub read_string : Action S (List ℕ)
  read_string = do size ← read_varint32; push_bytes size []
