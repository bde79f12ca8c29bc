-- ===== src/Tests/Buffers.antt =====
-- Runs of the theorems on buffers, encodings and sequences of items.
use lucanthrope.Base.{
  ℕ, zero, suc, ◌+◌, ◌-◌, ◌^◌, ◌≤◌, ◌<◌, ◌≡◌, ◌≢◌, ◌⊎◌, refl, inl, inr, Bool, true, false, List, [],
  ◌∷◌, length, All, arith,
}
use lucanthrope.Exception.{ok, aborts, diverges, Returns, Gives}
use lucanthrope.Io.IndexInput.{max_varint_length32, max_varint_length64}
use lucanthrope.Io.Encode.{varint32_buf, varint64_buf}
use lucanthrope.Io.Encode.Bounds.{varint_bounds}
use lucanthrope.Io.IndexIoBase.{
  new_base, has_buffer, get_buffer_size, get_current_position, set_output_buffer,
  get_num_writable_bytes, available, set_input_buffer, get_num_readable_bytes, has_pending_data,
}
use lucanthrope.Io.IndexIoBase.External.{set_output_buffer_lem, set_input_buffer_lem}
use lucanthrope.Io.Items.{
  Item, Kind, AreItems, kinds_of, items_of, items_bytes, write_items, read_items,
}
use lucanthrope.Storage.RamFile.{RamFile, Block}
use lucanthrope.Storage.RamFileIndexOutput.{RamOutput, new_output, ram_output, close}
use lucanthrope.Storage.RamFileIndexOutput.Memory.{IsReady}
use lucanthrope.Storage.RamFileIndexInput.{RamInput, new_input, ram_input}
use lucanthrope.Storage.RamFileIndexInput.Termination.{reads_end}
use lucanthrope.Storage.RamFileIndexInput.Values.{HasBytes, AllFit}
use lucanthrope.Storage.RamFileIndexInput.Values.Reading.{values_fit}
use lucanthrope.Storage.WriteRead.Items.{write_read_items}

set_output_buffer_lem_example :
    Returns (set_output_buffer true 4096 512 new_base) (λ u c.
      (has_buffer c ≡ true)
      × (get_buffer_size c ≡ 512)
      × (available c ≡ 512)
      × (get_num_writable_bytes c ≡ 0)
      × (get_current_position c ≡ get_current_position new_base)
      × (set_output_buffer true 8192 512 c ≡ aborts))
    × (set_output_buffer false 4096 512 new_base ≡ aborts)
unfolding has_buffer
set_output_buffer_lem_example =
    set_output_buffer_lem new_base 4096 512 8192 512 true refl (omega arith) (omega arith)

set_input_buffer_lem_example :
    Returns (set_input_buffer true 4096 512 (record { base = new_base; sentinel = 0 })) (λ u i.
      (has_buffer i.base ≡ true)
      × (get_buffer_size i.base ≡ 512)
      × (i.sentinel ≡ 0)
      × (get_num_readable_bytes i ≡ 2 ^ 64 - (4096 + 512))
      × (has_pending_data i ≡ true))
unfolding has_buffer
set_input_buffer_lem_example =
    set_input_buffer_lem new_base 4096 512 refl (omega arith) (omega arith)

varint_bounds_example :
    (1 ≤ length (varint64_buf 300))
    × (length (varint64_buf 300) ≤ max_varint_length64)
    × (300 < 128 ^ length (varint64_buf 300))
    × ((length (varint64_buf 300) ≡ 1) ⊎ (128 ^ (length (varint64_buf 300) - 1) ≤ 300))
    × All (λ b. b < 256) (varint64_buf 300)
    × (1 ≤ length (varint32_buf 3000000))
    × (length (varint32_buf 3000000) ≤ max_varint_length32)
    × All (λ b. b < 256) (varint32_buf 3000000)
varint_bounds_example = varint_bounds 300 3000000 (omega arith) (omega arith)

abbrev zeros : ℕ → Block
zeros n i = 0

-- Two bytes in a buffer, behind a flush after the first.
abbrev half_flushed : RamOutput
half_flushed = record (new_output "a") {
  file = record { blocks = zeros 0 ∷ []; length = 1; refs = 0; last_modified = 0; name = "a" };
  buffered = true;
  buf_start = 1;
  buf_cur = 2;
  buf_end = 4096;
  pos = 2;
}

half_flushed-IsReady : IsReady 0 "a" half_flushed 2 2
unfolding new_output
half_flushed-IsReady = record {
  placed = inr (refl, omega arith, refl, refl, omega arith, omega arith, omega arith);
  cursor = omega arith;
  pos = refl;
  tall = omega arith;
  named = refl;
  length_fits = omega arith;
  pos_fits = omega arith;
}

abbrev some_items : List (Item × Bool)
some_items =
    (Item.varint32 300, false)
    ∷ (Item.string (104 ∷ 105 ∷ []), true)
    ∷ (Item.int64 (2 ^ 40), false)
    ∷ (Item.byte 7, true)
    ∷ []

some_items-AreItems : AreItems (items_of some_items)
some_items-AreItems =
    ((omega arith, inl (omega arith)), ((omega arith, inl (omega arith)), (omega arith, (tt, tt))))

write_read_items_example :
    (s : RamOutput) × (t : RamInput) × (write_items ⦃impl = ram_output zeros⦄ some_items
        (new_output "a")
      ≡ ok tt s)
    × ((close s).length ≡ length (items_bytes (items_of some_items)))
    × (read_items ⦃impl = ram_input⦄ (kinds_of (items_of some_items)) (new_input (close s))
        ≡ ok (items_of some_items) t)
unfolding varint32_buf
write_read_items_example = write_read_items zeros "a" some_items some_items-AreItems (omega arith)

-- More is read than the file has.
abbrev tiny : RamFile
tiny = record { blocks = zeros 0 ∷ []; length = 1; refs = 1; last_modified = 0; name = "a" }

reads_end_example :
    read_items ⦃impl = ram_input⦄
      (Kind.string ∷ Kind.bytes 10000 ∷ Kind.int32 ∷ [])
      (new_input tiny)
    ≢ diverges
reads_end_example = reads_end tiny (Kind.string ∷ Kind.bytes 10000 ∷ Kind.int32 ∷ [])

tiny-HasBytes : HasBytes tiny
tiny-HasBytes zero i blk e = let same : zeros 0 ≡ blk = cc (e) in rw (← same) (omega arith)
tiny-HasBytes (suc n) i blk e = absurd (ground (arith, e))

values_fit_example :
    Gives
      (read_items ⦃impl = ram_input⦄
        (Kind.string ∷ Kind.int32 ∷ Kind.varint64 ∷ [])
        (new_input tiny))
      (λ xs t. (t.file ≡ tiny) × AllFit (Kind.string ∷ Kind.int32 ∷ Kind.varint64 ∷ []) xs)
values_fit_example = values_fit tiny (Kind.string ∷ Kind.int32 ∷ Kind.varint64 ∷ []) tiny-HasBytes
