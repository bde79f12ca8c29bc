-- ===== src/Storage/RamFileIndexInput/Promises.antt =====
-- RAMFileIndexInput delivers the bytes of its file, as IndexInput expects it.
use mathlib.Core.Path.{subst}
use lucanthrope.Base.{
  suc, ℕ, ◌+◌, ◌-◌, ◌/◌, ◌%◌, ◌≤◌, ◌<◌, ◌≡◌, inl, inr, refl, ap, Bool, true, false, List, [], ◌∷◌,
  some, get_elem?, get_elem?-lt, length, ltb, ◌==◌, if◌then◌else◌, Bool-cases, arith,
}
use lucanthrope.Exception.{ok}
use lucanthrope.Io.IndexInput.Source.{IsSource}
use lucanthrope.Storage.RamFile.{RamFile, block_size}
use lucanthrope.Storage.RamFileIndexInput.{
  RamInput, next_byte, init_internal_buffer, fill_impl, ram_input,
}
use lucanthrope.Storage.RamFileIndexInput.Memory.{
  end_of, IsOpen, Holds, Reaches, Reaches-le, set_buffer_lem,
}

-- A stream over `f`, and what is ahead up to byte `mark`, or up to the end of the stream.
module _ (f : RamFile) (mark : ℕ) where
  abbrev pub Ahead : Bool → RamInput → List ℕ → Type 0
  Ahead ends s xs =
      (c : ℕ) × IsOpen s c
      × (s.file ≡ f)
      × Holds s.file c xs
      × Reaches mark ends (end_of s) (c + length xs)

  pub next_lem :
      (ends : Bool) (s : RamInput) (x : ℕ) (xs : List ℕ)
      → Ahead ends s (x ∷ xs)
      → 0 < s.sentinel - s.buf_cur
      → (s' : RamInput) × (next_byte s ≡ ok x s')
        × Ahead ends s' xs
        × (s'.sentinel - s'.buf_cur + 1 ≡ s.sentinel - s.buf_cur)
  unfolding next_byte
  next_lem ends s x xs (c, o, same, ((blk, e, v), more), reach) room =
      let block : c / block_size ≡ s.buf_block = ground (arith, o.placed, o.cursor, o.last_bytes) in
      let offset : c % block_size ≡ s.buf_cur = ground (arith, o.placed, o.cursor, o.last_bytes) in
      let inside : ltb s.buf_cur block_size ≡ true = ground (arith, o.placed, o.last_bytes) in
      let found : get_elem? s.file.blocks s.buf_block ≡ some blk = rw block at e in
      let value : blk s.buf_cur ≡ x = rw offset at v in
      let there : c + suc (length xs) ≡ c + 1 + length xs = omega arith in
      (
        record s { buf_cur = s.buf_cur + 1 },
        rw (found, next_byte, inside) (ap (λ b. ok b (record s { buf_cur = s.buf_cur + 1 })) value),
        (
          c + 1,
          record {
            placed = ground (arith, o.placed);
            cursor = omega (arith, o.cursor);
            not_empty = o.not_empty;
            last = o.last;
            last_bytes = o.last_bytes;
          },
          same,
          more,
          subst (Reaches mark ends (end_of s)) there reach,
        ),
        omega arith,
      )

  -- The first buffer.
  fill_first :
      (ends : Bool) (s : RamInput) (x : ℕ) (xs : List ℕ)
      → Ahead ends s (x ∷ xs)
      → s.buffered ≡ false
      → (s' : RamInput) × (fill_impl s ≡ ok true s')
        × Ahead ends s' (x ∷ xs)
        × (0 < s'.sentinel - s'.buf_cur)
  unfolding fill_impl init_internal_buffer
  fill_first ends s x xs (c, o, same, ((blk, e, v), more), reach) h =
      let start : c ≡ 0 = ground (arith, h, o.placed, o.cursor) in
      let block : c / block_size ≡ 0 = omega arith in
      let found : get_elem? s.file.blocks 0 ≡ some blk = rw block at e in
      let pending : ltb 0 (s.sentinel - s.buf_cur) ≡ false = ground (arith, h, o.placed) in
      let later : (s.last_block == 0) ≡ false = ground (arith, o.last) in
      (
        record s {
          buffered = true;
          buf_block = 0;
          buf_start = 0;
          buf_cur = 0;
          buf_end = block_size;
          sentinel = block_size;
        },
        rw (pending, h, set_buffer_lem s 0 blk found, later),
        (
          c,
          record {
            placed = ground (arith, h, o.placed, o.last, get_elem?-lt s.file.blocks 0 found);
            cursor = ground (arith, h, o.placed, o.cursor);
            not_empty = o.not_empty;
            last = o.last;
            last_bytes = o.last_bytes;
          },
          same,
          ((blk, e, v), more),
          reach,
        ),
        omega arith,
      )

  -- The buffer of the next block.
  fill_next :
      (ends : Bool) (s : RamInput) (x : ℕ) (xs : List ℕ)
      → Ahead ends s (x ∷ xs)
      → s.sentinel - s.buf_cur ≡ 0
      → s.buffered ≡ true
      → (s' : RamInput) × (fill_impl s ≡ ok true s')
        × Ahead ends s' (x ∷ xs)
        × (0 < s'.sentinel - s'.buf_cur)
  unfolding fill_impl
  fill_next ends s x xs (c, o, same, ((blk, e, v), more), reach) used h =
      let next : ℕ = s.current_block + 1 in
      let bound = Reaches-le mark ends (end_of s) (c + length (x ∷ xs)) reach in
      let inner : (s.current_block == s.last_block) ≡ false =
        ground (arith, h, used, bound, o.placed, o.cursor) in
      let full : s.buf_cur ≡ block_size = ground (arith, h, used, inner, o.placed) in
      let block : c / block_size ≡ next = omega (arith, o.cursor) in
      let found : get_elem? s.file.blocks next ≡ some blk = rw block at e in
      let pending : ltb 0 (s.sentinel - s.buf_cur) ≡ false = ground arith in
      (
        record s {
          current_block = next;
          buffered = true;
          buf_block = next;
          buf_start = 0;
          buf_cur = 0;
          buf_end = block_size;
          sentinel = if next == s.last_block then 0 + s.last_block_bytes else block_size;
        },
        rw (pending, h, inner, set_buffer_lem (record s { current_block = next }) next blk found),
        (
          c,
          record {
            placed = ground (arith, h, inner, o.placed, get_elem?-lt s.file.blocks next found);
            cursor = omega (arith, o.cursor);
            not_empty = o.not_empty;
            last = o.last;
            last_bytes = o.last_bytes;
          },
          same,
          ((blk, e, v), more),
          reach,
        ),
        ground (arith, o.last_bytes),
      )

  pub fill_lem :
      (ends : Bool) (s : RamInput) (x : ℕ) (xs : List ℕ)
      → Ahead ends s (x ∷ xs)
      → s.sentinel - s.buf_cur ≡ 0
      → (s' : RamInput) × (fill_impl s ≡ ok true s')
        × Ahead ends s' (x ∷ xs)
        × (0 < s'.sentinel - s'.buf_cur)
  fill_lem ends s x xs a used = elim (Bool-cases s.buffered) [
    | inl yes_buffer ↦ fill_next ends s x xs a used yes_buffer
    | inr no_buffer ↦ fill_first ends s x xs a no_buffer
  ]

  pub within_lem :
      (s : RamInput) (xs : List ℕ) → Ahead true s xs → s.sentinel - s.buf_cur ≤ length xs
  within_lem s xs (c, o, same, h, reach) = ground (arith, reach, o.placed, o.cursor, o.last_bytes)

  pub exhausted_lem : (s : RamInput) → Ahead true s [] → fill_impl s ≡ ok false s
  unfolding fill_impl
  exhausted_lem s (c, o, same, h, reach) =
      ground (arith, reach, o.placed, o.cursor, o.last, o.last_bytes, o.last_bytes)

  -- RAMFileIndexInput keeps the promises of `IsSource`, up to where it reports its end.
  unfoldable pub ram_input-IsSource : IsSource ram_input
  unfolding ram_input
  ram_input-IsSource = record {
    Ahead = Ahead;
    next = next_lem;
    fill = fill_lem;
    within = within_lem;
    exhausted = exhausted_lem;
    move-Ahead = λ ends s xs n (c, o, same, h, r). (
      c,
      record {
        placed = o.placed;
        cursor = o.cursor;
        not_empty = o.not_empty;
        last = o.last;
        last_bytes = o.last_bytes;
      },
      same,
      h,
      r,
    );
    move-readable = λ s n. refl;
  }
