-- ===== src/Io/IndexIoBase/External.antt =====
-- What a client gets that installs a buffer of its own.
use lucanthrope.Base.{ℕ, ◌+◌, ◌-◌, ◌%◌, ◌^◌, ◌<◌, ◌≡◌, refl, Bool, true, false, leb, ◌==◌, arith}
use lucanthrope.Exception.{aborts, Returns}
use lucanthrope.Io.IndexIoBase.{
  IndexIoBase, has_buffer, get_buffer_size, get_current_position, set_external_buffer,
  set_output_buffer, get_num_writable_bytes, available, set_input_buffer, get_num_readable_bytes,
  has_pending_data,
}

-- Of a buffer that fits into memory, an output stream with no buffer that supports external ones
-- has all bytes available and none to flush, at the position that it was at; a second buffer, or a
-- first one for a stream that does not support external ones, fails an assertion.
pub set_output_buffer_lem :
    (b : IndexIoBase) (start size again more : ℕ) (supports : Bool)
    → has_buffer b ≡ false
    → 0 < start
    → start + size < 2 ^ 64
    → Returns (set_output_buffer true start size b) (λ u c.
      (has_buffer c ≡ true)
      × (get_buffer_size c ≡ size)
      × (available c ≡ size)
      × (get_num_writable_bytes c ≡ 0)
      × (get_current_position c ≡ get_current_position b)
      × (set_output_buffer supports again more c ≡ aborts))
      × (set_output_buffer false start size b ≡ aborts)
unfolding set_output_buffer set_external_buffer has_buffer get_buffer_size available
    get_num_writable_bytes
set_output_buffer_lem b start size again more supports none_yet low high =
    let free : (b.buf_start == 0) ≡ true = ground arith in
    let taken : (start == 0) ≡ false = ground arith in
    let fits : leb start ((start + size) % 2 ^ 64) ≡ true = ground arith in
    let full : (start + size) % 2 ^ 64 ≡ start + size = omega arith in
    (
      rw (free, fits, full, Returns)
          (ground arith, omega arith, omega arith, omega arith, refl, ground (arith, taken)),
      ground arith,
    )

-- An input stream with no buffer that supports external ones takes a buffer that fits into
-- memory, but reports data to read at once, although none has been read into the buffer: the
-- setter leaves `sentinel` null behind the end of the buffer.
pub set_input_buffer_lem :
    (b : IndexIoBase) (start size : ℕ)
    → has_buffer b ≡ false
    → 0 < start
    → start + size < 2 ^ 64
    → Returns (set_input_buffer true start size (record { base = b; sentinel = 0 })) (λ u i.
      (has_buffer i.base ≡ true)
      × (get_buffer_size i.base ≡ size)
      × (i.sentinel ≡ 0)
      × (get_num_readable_bytes i ≡ 2 ^ 64 - (start + size))
      × (has_pending_data i ≡ true))
unfolding set_input_buffer set_external_buffer has_buffer get_buffer_size get_num_readable_bytes
    has_pending_data
set_input_buffer_lem b start size none_yet low high =
    let free : (b.buf_start == 0) ≡ true = ground arith in
    let fits : leb start ((start + size) % 2 ^ 64) ≡ true = ground arith in
    let full : (start + size) % 2 ^ 64 ≡ start + size = omega arith in
    rw (free, fits, full, Returns) (ground arith, omega arith, refl, omega arith, ground arith)
