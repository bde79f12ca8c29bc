-- ===== src/Storage/RamFileIndexInput/Termination.antt =====
-- The reading functions end on every RAMFileIndexInput, also behind the end of its file.
use mathlib.Core.Path.{subst}
use lucanthrope.Base.{
  ℕ, zero, suc, ◌+◌, ◌-◌, ◌≤◌, ◌<◌, ◌≡◌, refl, ◌≢◌, ◌⊎◌, min, bit_and, Bool, true, List, [], ◌∷◌,
  ◌++◌, length, ltb, ◌==◌, arith,
}
use lucanthrope.Exception.{diverges, Action, Ends, Ends-continue, Ends-if}
use lucanthrope.Io.IndexInput.{
  eof, read_byte, copy_bytes, read_loop, read, read_int32, read_int64, varint_loop, read_varint32,
  read_varint64, push_bytes, read_string,
}
use lucanthrope.Io.Items.{Kind, read_item, read_items}
use lucanthrope.Storage.RamFile.{RamFile}
use lucanthrope.Storage.RamFileIndexInput.{
  RamInput, new_input, set_buffer, next_byte, init_internal_buffer, fill_impl, ram_input,
}

-- The last block is taken to have a byte.
abbrev Live : RamInput → Type 0
Live s = 0 < s.last_block_bytes

-- Afterwards it still is; after a call of `eof` that found no end there is a byte in the buffer.
abbrev Alive : {A : Type 0} → A → RamInput → Type 0
Alive a s = Live s

abbrev Found : Bool → RamInput → Type 0
Found at_end s = Live s × ((at_end ≡ true) ⊎ (0 < s.sentinel - s.buf_cur))

eof-Ends : (s : RamInput) → Live s → Ends (eof ⦃impl = ram_input⦄ s) Found
unfolding eof ram_input fill_impl init_internal_buffer set_buffer
eof-Ends s h = ground arith

next_byte-Ends : (s : RamInput) → Live s → Ends (next_byte s) Alive
unfolding next_byte
next_byte-Ends s h = ground arith

read_byte-Ends : (s : RamInput) → Live s → Ends (read_byte ⦃impl = ram_input⦄ s) Alive
unfolding read_byte ram_input
read_byte-Ends s h = Ends-continue Found Alive _ _ (eof-Ends s h) λ at_end t found.
    Ends-if Alive at_end _ _ t (λ _. tt)
      (λ _. next_byte-Ends (record t { pos = t.pos + 1 }) found.0)

abbrev HasLength : ℕ → List ℕ → RamInput → Type 0
HasLength n bs s = Live s × (length bs ≡ n)

copy_bytes-Ends :
    (n : ℕ) (s : RamInput) → Live s → Ends (copy_bytes ⦃impl = ram_input⦄ n s) (HasLength n)
unfolding copy_bytes ram_input
copy_bytes-Ends zero s h = (h, refl)
copy_bytes-Ends (suc n) s h =
    Ends-continue Alive (HasLength (suc n)) _ _ (next_byte-Ends s h) λ b t live.
      Ends-continue (HasLength n) (HasLength (suc n)) _ _ (copy_bytes-Ends n t live)
        λ bs u more. (more.0, omega arith)

-- Each round of `read` copies a byte at least, so the rounds that it is given are enough.
read_loop-Ends :
    (fuel size : ℕ) (copied : List ℕ) (s : RamInput)
    → Live s
    → size ≤ fuel
    → Ends (read_loop ⦃impl = ram_input⦄ fuel size copied s) Alive
unfolding read_loop ram_input
read_loop-Ends fuel zero copied s h f = h
read_loop-Ends zero (suc size) copied s h f = absurd (omega arith)
read_loop-Ends (suc fuel) (suc size) copied s h f =
    Ends-continue Found Alive _ _ (eof-Ends s h) λ at_end t found.
      Ends-if Alive at_end _ _ t (λ _. found.0)
        λ not_end.
          let n : ℕ = min (t.sentinel - t.buf_cur) (suc size) in
          let some : 0 < n = ground (arith, found.1, not_end) in
          Ends-continue (HasLength n) Alive _ _ (copy_bytes-Ends n t found.0)
            λ bs u more. read_loop-Ends fuel (suc size - n) (copied ++ bs) u more.0 (omega arith)

read-Ends : (size : ℕ) (s : RamInput) → Live s → Ends (read ⦃impl = ram_input⦄ size s) Alive
unfolding read ram_input
read-Ends size s h =
    Ends-continue Alive Alive _ _ (read_loop-Ends size size [] s h (omega arith)) λ bs t live. live

varint_loop-Ends :
    (width rounds decoded ret : ℕ) (fail : Action RamInput ℕ) (s : RamInput)
    → Live s
    → ((t : RamInput) → Live t → Ends (fail t) Alive)
    → Ends (varint_loop ⦃impl = ram_input⦄ width rounds decoded ret fail s) Alive
unfolding varint_loop
varint_loop-Ends width zero decoded ret fail s h k = k s h
varint_loop-Ends width (suc rounds) decoded ret fail s h k =
    Ends-continue Found Alive _ _ (eof-Ends s h) λ at_end t found.
      Ends-if Alive at_end _ _ t (λ _. k t found.0)
        λ _. Ends-continue Alive Alive _ _ (read_byte-Ends t found.0) λ b u live.
          Ends-if Alive (bit_and b 128 == 0) _ _ u (λ _. live)
            λ _. varint_loop-Ends width rounds (decoded + 1) _ fail u live k

push_bytes-Ends :
    (size : ℕ) (buff : List ℕ) (s : RamInput)
    → Live s
    → Ends (push_bytes ⦃impl = ram_input⦄ size buff s) Alive
unfolding push_bytes
push_bytes-Ends zero buff s h = h
push_bytes-Ends (suc size) buff s h =
    Ends-continue Alive Alive _ _ (read_byte-Ends s h)
      λ b t live. push_bytes-Ends size (buff ++ (b ∷ [])) t live

read_item-Ends : (k : Kind) (s : RamInput) → Live s → Ends (read_item ⦃impl = ram_input⦄ k s) Alive
unfolding read_item read_int32 read_int64 read_varint32 read_varint64 read_string
read_item-Ends Kind.byte s h = Ends-continue Alive Alive _ _ (read_byte-Ends s h) λ b t live. live
read_item-Ends Kind.int32 s h =
    Ends-continue Alive Alive _ _
      (Ends-continue Alive Alive _ _ (read-Ends 4 s h)
        λ bs t live. Ends-if Alive (ltb (length bs) 4) _ _ t (λ _. tt) (λ _. live))
      λ n t live. live
read_item-Ends Kind.int64 s h =
    Ends-continue Alive Alive _ _
      (Ends-continue Alive Alive _ _ (read-Ends 8 s h)
        λ bs t live. Ends-if Alive (ltb (length bs) 8) _ _ t (λ _. tt) (λ _. live))
      λ n t live. live
read_item-Ends Kind.varint32 s h =
    Ends-continue Alive Alive _ _ (varint_loop-Ends 32 5 0 0 _ s h (λ t live. tt)) λ n t live. live
read_item-Ends Kind.varint64 s h =
    Ends-continue Alive Alive _ _ (varint_loop-Ends 64 10 0 0 _ s h (λ t live. tt)) λ n t live. live
read_item-Ends (Kind.bytes size) s h =
    Ends-continue Alive Alive _ _ (read-Ends size s h) λ bs t live. live
read_item-Ends Kind.string s h =
    Ends-continue Alive Alive _ _
      (Ends-continue Alive Alive _ _ (varint_loop-Ends 32 5 0 0 _ s h (λ t live. tt))
        λ n t live. push_bytes-Ends n [] t live)
      λ str t live. live

read_items-Ends :
    (ks : List Kind) (s : RamInput) → Live s → Ends (read_items ⦃impl = ram_input⦄ ks s) Alive
unfolding read_items
read_items-Ends [] s h = h
read_items-Ends (k ∷ ks) s h =
    Ends-continue Alive Alive _ _ (read_item-Ends k s h)
      λ x t live. Ends-continue Alive Alive _ _ (read_items-Ends ks t live) λ xs u alive. alive

-- Over any file, well formed or not, and for any sequence of calls of the reading functions
-- (single bytes, blocks of any size, integers, varints and strings), also behind the end of the
-- file, the rounds that the model gives to each loop are enough: the calls return, throw, fail an
-- assertion or run into undefined behaviour, and never go on for ever.
pub reads_end :
    (f : RamFile) (ks : List Kind) → read_items ⦃impl = ram_input⦄ ks (new_input f) ≢ diverges
unfolding new_input
reads_end f ks e = subst (λ o. Ends o Alive) e (read_items-Ends ks (new_input f) (omega arith))
