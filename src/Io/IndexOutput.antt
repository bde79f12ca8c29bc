-- ===== src/Io/IndexOutput.antt =====
-- IndexOutput of include/lucanthrope/IO/IndexOutput.h and lib/IO/IndexOutput.cpp, over whatever a
-- stream implements: its buffer and the virtual functions.
pub mod Sink
pub mod Writes
pub mod Bytes
pub mod Strings
use lucanthrope.Base.{
  ℕ, zero, suc, ◌-◌, ◌%◌, ◌^◌, Bool, not, List, [], ◌∷◌, length, take, drop, ltb, leb, ◌==◌,
  if◌then◌else◌,
}
use lucanthrope.Exception.{diverges, Action, pure, assert, modify, ◌>>=◌, ◌>>◌}
use lucanthrope.Io.Encode.{int32_buf, int64_buf, varint32_buf, varint64_buf}

-- What the functions of IndexOutput use of a stream of type `S`.
pub record OutputImpl (S : Type 0) : Type 0 where
  -- `bufStart != nullptr`
  pub has_buffer : S → Bool
  -- `bufEnd - bufCur`
  pub available : S → ℕ
  -- `bufCur - bufStart`
  pub get_num_writable_bytes : S → ℕ
  -- `*bufCur++ = c`
  pub store_byte : ℕ → Action S (Unit {0})
  pub init_internal_buffer : Action S (Unit {0})
  pub write_impl : Action S (Unit {0})
  -- `bufCur = bufStart`
  pub reset_cursor : S → S
  -- `pos += n`
  pub move : ℕ → S → S

module _ {S : Type 0} ⦃impl : OutputImpl S⦄ where
  unfoldable pub flush_non_empty : Action S (Unit {0})
  flush_non_empty = do
    λ s. assert (ltb 0 (impl.get_num_writable_bytes s)) s
    impl.write_impl
    modify impl.reset_cursor

  unfoldable pub flush : Action S (Unit {0})
  unfolding flush_non_empty
  flush s = if impl.get_num_writable_bytes s == 0 then pure tt s else flush_non_empty s

  unfoldable pub sync : Action S (Unit {0})
  unfolding flush
  sync = flush

  -- The call that `writeByte` makes of itself, once the buffer is there, is the second round.
  pub write_byte_rounds : ℕ → ℕ → Action S (Unit {0})
  unfolding flush_non_empty
  write_byte_rounds zero c = λ _. diverges
  write_byte_rounds (suc rounds) c = λ s.
      let again = (impl.init_internal_buffer >> write_byte_rounds rounds c) s in
      let flushed = (do flush_non_empty; modify (impl.move 1); impl.store_byte c) s in
      if impl.available s == 0
      then (if not (impl.has_buffer s) then again else flushed)
      else (modify (impl.move 1) >> impl.store_byte c) s

  pub write_byte : ℕ → Action S (Unit {0})
  write_byte = write_byte_rounds 2

  store_bytes : List ℕ → Action S (Unit {0})
  store_bytes [] = pure tt
  store_bytes (c ∷ cs) = impl.store_byte c >> store_bytes cs

  -- The `switch` and `memcpy` both copy the bytes one for one.
  pub copy_to_buffer : List ℕ → Action S (Unit {0})
  unfolding store_bytes
  copy_to_buffer bytes =
      (λ s. assert (leb (length bytes) (impl.available s)) s) >> store_bytes bytes

  -- Each call that `write` makes of itself is a round.
  pub write_rounds : ℕ → List ℕ → Action S (Unit {0})
  write_rounds zero bytes = λ _. diverges
  write_rounds (suc rounds) bytes = λ s.
      let avail = impl.available s in
      let again = (impl.init_internal_buffer >> write_rounds rounds bytes) s in
      let rest =
        (do
          copy_to_buffer (take avail bytes)
          modify (impl.move avail)
          flush_non_empty
          write_rounds rounds (drop avail bytes))
          s in
      if ltb avail (length bytes)
      then (if not (impl.has_buffer s) then again else rest)
      else (copy_to_buffer bytes >> modify (impl.move (length bytes))) s

  -- One round to get a buffer, one for a full buffer, one to end, and one for each byte at most.
  pub write : List ℕ → Action S (Unit {0})
  write bytes = write_rounds (suc (suc (suc (length bytes)))) bytes

  unfoldable pub write_int32 : ℕ → Action S (Unit {0})
  write_int32 num = write (int32_buf num)

  unfoldable pub write_int64 : ℕ → Action S (Unit {0})
  write_int64 num = write (int64_buf num)

  unfoldable pub write_varint32 : ℕ → Action S (Unit {0})
  write_varint32 num = write (varint32_buf num)

  unfoldable pub write_varint64 : ℕ → Action S (Unit {0})
  write_varint64 num = write (varint64_buf num)

  -- `static_cast<uint32_t>(str.size())` takes the size modulo 2 ^ 32.
  pub write_string : List ℕ → Action S (Unit {0})
  write_string str = write_varint32 (length str % 2 ^ 32) >> write str
