-- ===== src/Storage/WriteRead.antt =====
-- A file that is written through RAMFileIndexOutput and read through RAMFileIndexInput.
pub mod Strings
pub mod Items
pub mod Edits
use mathlib.Core.Path.{subst}
use lucanthrope.Base.{
  ℕ, ◌+◌, ◌%◌, ◌<◌, ◌≡◌, ◌≢◌, ◌∙◌, inl, max, refl, ap, false, String, List, [], ◌∷◌, ◌++◌,
  append-nil, length, arith,
}
use lucanthrope.Exception.{ok}
use lucanthrope.Io.IndexOutput.{write}
use lucanthrope.Io.IndexOutput.Sink.{Wrote}
use lucanthrope.Io.IndexOutput.Sink
use lucanthrope.Io.IndexOutput.Writes.{write_lem}
use lucanthrope.Io.IndexInput.{read, eof}
use lucanthrope.Io.IndexInput.Reads.{read_prefix}
use lucanthrope.Storage.RamFile.{RamFile, Block, block_size}
use lucanthrope.Storage.RamFileIndexOutput.{RamOutput, new_output, ram_output, close}
use lucanthrope.Storage.RamFileIndexOutput.Memory.{IsReady}
use lucanthrope.Storage.RamFileIndexOutput.Promises.{ram_output-IsSink}
use lucanthrope.Storage.RamFileIndexInput.{RamInput, new_input, ram_input}
use lucanthrope.Storage.RamFileIndexInput.Memory.{Holds, IsOpen, new_input-IsOpen}
use lucanthrope.Storage.RamFileIndexInput.Promises.{Ahead, ram_input-IsSource}
use lucanthrope.Storage.RamFileIndexInput.End.{end_of-length, eof_missed}

pub Holds-close : (s : RamOutput) (p : ℕ) (bs : List ℕ) → Holds s.file p bs → Holds (close s) p bs
unfolding close
Holds-close s p [] h = tt
Holds-close s p (b ∷ bs) h = (h.0, Holds-close s (p + 1) bs h.1)

pub new_output-IsReady : (name : String) → IsReady 0 name (new_output name) 0 0
unfolding new_output
new_output-IsReady name = record {
  placed = inl (refl, refl, refl, refl, refl);
  cursor = omega arith;
  pos = refl;
  tall = refl;
  named = refl;
  length_fits = omega arith;
  pos_fits = omega arith;
}

pub name-close : (s : RamOutput) (name : String) → s.file.name ≡ name → (close s).name ≡ name
unfolding close
name-close s name e = e

-- The length of the file after the destructor of its stream.
pub length-close :
    (top : ℕ) (name : String) (s : RamOutput) (c p : ℕ)
    → IsReady top name s c p
    → (close s).length ≡ max top p
unfolding close
length-close top name s c p r = ground (arith, r.tall)

-- A stream over the file, of which `bs` are to be read.
pub Ahead-new_input :
    (f : RamFile) (bs : List ℕ)
    → f.length ≡ length bs
    → 0 < length bs
    → Holds f 0 bs
    → Ahead f (length bs) false (new_input f) (bs ++ [])
unfolding new_input
Ahead-new_input f bs e some h =
    let open_at = new_input-IsOpen f (omega arith) in
    rw append-nil
      (0, open_at, refl, h, (omega arith, omega (arith, end_of-length (new_input f) 0 open_at)))

module _ (contents : ℕ → Block) where
  -- What the sink promises about a position, in terms of the file.
  pub Holds-sink :
      (top : ℕ) (name : String) (s : RamOutput) (p : ℕ) (bs : List ℕ)
      → Sink.Holds (ram_output-IsSink contents top name) s p bs
      → Holds s.file p bs
  unfolding ram_output-IsSink
  Holds-sink top name s p [] h = tt
  Holds-sink top name s p (b ∷ bs) h = (h.0, Holds-sink top name s (p + 1) bs h.1)

  -- The file that the destructor leaves behind.
  pub closed_lem :
      (name : String) (bs : List ℕ) (s : RamOutput)
      → IsReady 0 name s (0 + length bs) (0 + length bs)
      → Wrote (ram_output-IsSink contents 0 name) (new_output name) 0 bs s
      → ((close s).name ≡ name) × ((close s).length ≡ length bs) × Holds (close s) 0 bs
  closed_lem name bs s r w = (
    name-close s name r.named,
    length-close 0 name s (0 + length bs) (0 + length bs) r ∙ omega arith,
    Holds-close s 0 bs (Holds-sink 0 name s 0 bs w.holds),
  )

  -- A new file after one `write` and the destructor of its stream has just the bytes written.
  pub write_new_file :
      (name : String) (bs : List ℕ)
      → (s : RamOutput) × (write ⦃impl = ram_output contents⦄ bs (new_output name) ≡ ok tt s)
        × ((close s).name ≡ name)
        × ((close s).length ≡ length bs)
        × Holds (close s) 0 bs
  unfolding ram_output-IsSink
  write_new_file name bs =
      let sink = ram_output-IsSink contents 0 name in
      let (s, e, r, w) = write_lem sink bs (new_output name) 0 (new_output-IsReady name) in
      let (named, len, h) = closed_lem name bs s r w in (s, e, named, len, h)

  -- Bytes that are written to a new file, which is then closed, are read back through a new stream.
  pub read-write :
      (name : String) (bs : List ℕ)
      → 0 < length bs
      → (s : RamOutput) × (t : RamInput) × (write ⦃impl = ram_output contents⦄ bs (new_output name)
          ≡ ok tt s)
        × (read ⦃impl = ram_input⦄ (length bs) (new_input (close s)) ≡ ok bs t)
  unfolding ram_input-IsSource
  read-write name bs some =
      let (s, e, _, len, h) = write_new_file name bs in
      let f = close s in
      let (t, e', _) =
        read_prefix (ram_input-IsSource f (length bs)) bs false (new_input f) []
          (Ahead-new_input f bs len some h) in
      (s, t, e, e')

  -- A new file, not empty, whose length is no multiple of the block size is read to its end, and
  -- the stream still does not report its end.
  pub eof-read-write :
      (name : String) (bs : List ℕ)
      → 0 < length bs
      → length bs % block_size ≢ 0
      → (s : RamOutput) × (t : RamInput) × (write ⦃impl = ram_output contents⦄ bs (new_output name)
          ≡ ok tt s)
        × (read ⦃impl = ram_input⦄ (length bs) (new_input (close s)) ≡ ok bs t)
        × (eof ⦃impl = ram_input⦄ t ≡ ok false t)
  unfolding ram_input-IsSource
  eof-read-write name bs some odd =
      let (s, e, _, len, h) = write_new_file name bs in
      let f = close s in
      let (t, e', (c, o, same, _, (there, _))) =
        read_prefix (ram_input-IsSource f (length bs)) bs false (new_input f) []
          (Ahead-new_input f bs len some h) in
      let at_end : c ≡ t.file.length = omega (arith, ap (λ (g : RamFile). g.length) same) in
      let missed =
        eof_missed t (subst (IsOpen t) at_end o)
          (rw (ap (λ (g : RamFile). g.length % block_size) same) (rw len odd)) in
      (s, t, e, e', missed)
