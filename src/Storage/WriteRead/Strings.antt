-- ===== src/Storage/WriteRead/Strings.antt =====
-- A string in a file.
use lucanthrope.Base.{
  ℕ, ◌%◌, ◌^◌, ◌≤◌, ◌<◌, ◌≡◌, ◌⊎◌, false, String, List, [], length, length-append, arith,
}
use lucanthrope.Exception.{ok}
use lucanthrope.Io.Encode.{varint32_buf}
use lucanthrope.Io.IndexOutput.{write_string}
use lucanthrope.Io.IndexOutput.Strings.{write_string_lem}
use lucanthrope.Io.IndexInput.{read_string}
use lucanthrope.Io.RoundTrip.Strings.{string_bytes, read_string-string_bytes}
use lucanthrope.Storage.RamFile.{Block}
use lucanthrope.Storage.RamFileIndexOutput.{RamOutput, new_output, ram_output, close}
use lucanthrope.Storage.RamFileIndexOutput.Promises.{ram_output-IsSink}
use lucanthrope.Storage.RamFileIndexInput.{RamInput, new_input, ram_input}
use lucanthrope.Storage.RamFileIndexInput.Promises.{ram_input-IsSource}
use lucanthrope.Storage.WriteRead.{new_output-IsReady, closed_lem, Ahead-new_input}

varint32_buf-some : (num : ℕ) → 0 < length (varint32_buf num)
unfolding varint32_buf
varint32_buf-some num = ground arith

-- A string that `writeString` writes to a new file is what `readString` returns from a new stream
-- over the file, if its size is below 2 ^ 21, or at least 2 ^ 28 and below 2 ^ 32.
pub write_read_string :
    (contents : ℕ → Block) (name : String) (str : List ℕ)
    → length str < 2 ^ 32
    → (length str < 2 ^ 21) ⊎ (2 ^ 28 ≤ length str)
    → (s : RamOutput) × (t : RamInput) × (write_string ⦃impl = ram_output contents⦄ str
          (new_output name)
        ≡ ok tt s)
      × (read_string ⦃impl = ram_input⦄ (new_input (close s)) ≡ ok str t)
unfolding ram_output-IsSink ram_input-IsSource
write_read_string contents name str h range =
    let bs : List ℕ = string_bytes str in
    let size : List ℕ = varint32_buf (length str % 2 ^ 32) in
    let some_bytes : 0 < length bs =
      omega (arith, length-append size str, varint32_buf-some (length str % 2 ^ 32)) in
    let sink = ram_output-IsSink contents 0 name in
    let (s, e, r, w) = write_string_lem sink str (new_output name) 0 (new_output-IsReady name) in
    let (_, len, holds) = closed_lem contents name bs s r w in
    let (t, got, _) =
      read_string-string_bytes (ram_input-IsSource (close s) (length bs)) str false
        (new_input (close s)) [] h range (Ahead-new_input (close s) bs len some_bytes holds) in
    (s, t, e, got)
