-- ===== src/Tests/Output.antt =====
-- Runs of the theorems on the streams over a file.
use lucanthrope.Base.{ℕ, ◌+◌, ◌≡◌, refl, inr, true, false, List, [], ◌∷◌, length, arith}
use lucanthrope.Exception.{ok, undefined}
use lucanthrope.Io.IndexOutput.{write}
use lucanthrope.Io.IndexOutput.Sink.{Wrote}
use lucanthrope.Io.IndexOutput.Writes.{write_lem}
use lucanthrope.Io.IndexInput.{read, eof}
use lucanthrope.Storage.RamFile.{RamFile, Block}
use lucanthrope.Storage.RamFileIndexOutput.{RamOutput, new_output, ram_output, close}
use lucanthrope.Storage.RamFileIndexOutput.Memory.{IsReady}
use lucanthrope.Storage.RamFileIndexOutput.Promises.{ram_output-IsSink}
use lucanthrope.Storage.RamFileIndexInput.{RamInput, new_input, ram_input}
use lucanthrope.Storage.RamFileIndexInput
use lucanthrope.Storage.RamFileIndexInput.Memory.{IsOpen, new_input-IsOpen}
use lucanthrope.Storage.RamFileIndexInput.Seek.{seek-IsOpen}
use lucanthrope.Storage.RamFileIndexInput.End.{eof_undefined}
use lucanthrope.Storage.WriteRead.{eof-read-write, new_output-IsReady}

abbrev zeros : ℕ → Block
zeros n i = 0

abbrev three_bytes : List ℕ
three_bytes = 1 ∷ 2 ∷ 3 ∷ []

write_lem_example :
    (s' : RamOutput) × (write ⦃impl = ram_output zeros⦄ three_bytes (new_output "a") ≡ ok tt s')
    × IsReady 0 "a" s' (0 + length three_bytes) (0 + length three_bytes)
    × Wrote (ram_output-IsSink zeros 0 "a") (new_output "a") 0 three_bytes s'
unfolding ram_output-IsSink
write_lem_example =
    write_lem (ram_output-IsSink zeros 0 "a") three_bytes (new_output "a") 0
      (new_output-IsReady "a")

eof-read-write_example :
    (s : RamOutput) × (t : RamInput) × (write ⦃impl = ram_output zeros⦄ three_bytes (new_output "a")
      ≡ ok tt s)
    × (read ⦃impl = ram_input⦄ (length three_bytes) (new_input (close s)) ≡ ok three_bytes t)
    × (eof ⦃impl = ram_input⦄ t ≡ ok false t)
eof-read-write_example = eof-read-write zeros "a" three_bytes (omega arith) (ground arith)

-- A stream in the second of two blocks.
abbrev two_blocks : RamFile
two_blocks = record {
  blocks = zeros 0 ∷ zeros 1 ∷ [];
  length = 5000;
  refs = 0;
  last_modified = 0;
  name = "a";
}

abbrev second_block : RamOutput
second_block = record {
  file = two_blocks;
  current_block = 1;
  buffered = true;
  buf_block = 1;
  buf_start = 0;
  buf_cur = 904;
  buf_end = 4096;
  pos = 5000;
}

second_block-IsReady : IsReady 0 "a" second_block 5000 5000
second_block-IsReady = record {
  placed = inr (refl, omega arith, refl, refl, omega arith, omega arith, omega arith);
  cursor = omega arith;
  pos = refl;
  tall = omega arith;
  named = refl;
  length_fits = omega arith;
  pos_fits = omega arith;
}

seek-IsOpen_example :
    (s' : RamInput) × (RamFileIndexInput.seek 4097 (new_input two_blocks) ≡ ok tt s')
    × IsOpen s' 4097
    × (s'.file ≡ two_blocks)
    × (s'.pos ≡ 0)
unfolding new_input
seek-IsOpen_example =
    seek-IsOpen (new_input two_blocks) 0 4097 (new_input-IsOpen two_blocks (omega arith))
      (omega arith) (omega arith)

-- A stream that has read the one, full block of its file.
abbrev full_file : RamFile
full_file = record { blocks = zeros 0 ∷ []; length = 4096; refs = 0; last_modified = 0; name = "a" }

abbrev all_read : RamInput
all_read = record {
  file = full_file;
  current_block = 0;
  last_block = 1;
  last_block_bytes = 4096;
  buffered = true;
  buf_block = 0;
  buf_start = 0;
  buf_cur = 4096;
  buf_end = 4096;
  sentinel = 4096;
  pos = 4096;
}

all_read-IsOpen : IsOpen all_read 4096
all_read-IsOpen = record {
  placed = inr (refl, refl, omega arith, omega arith, omega arith, refl);
  cursor = omega arith;
  not_empty = omega arith;
  last = omega arith;
  last_bytes = omega arith;
}

eof_undefined_example : eof ⦃impl = ram_input⦄ all_read ≡ undefined
eof_undefined_example = eof_undefined all_read all_read-IsOpen (omega arith)
