-- ===== src/Storage/WriteRead/Items.antt =====
-- Items that are written to a file one after another, with the stream flushed between, and read
-- back.
use lucanthrope.Base.{ℕ, ◌<◌, ◌≡◌, false, String, List, Bool, [], length}
use lucanthrope.Exception.{ok}
use lucanthrope.Io.Items.{Item, AreItems, kinds_of, items_of, items_bytes, write_items, read_items}
use lucanthrope.Io.Items.Written.{write_items_lem}
use lucanthrope.Io.Items.ReadBack.{read_items_lem}
use lucanthrope.Storage.RamFile.{Block}
use lucanthrope.Storage.RamFileIndexOutput.{RamOutput, new_output, ram_output, close}
use lucanthrope.Storage.RamFileIndexOutput.Promises.{ram_output-IsSink}
use lucanthrope.Storage.RamFileIndexInput.{RamInput, new_input, ram_input}
use lucanthrope.Storage.RamFileIndexInput.Promises.{ram_input-IsSource}
use lucanthrope.Storage.WriteRead.{new_output-IsReady, closed_lem, Ahead-new_input}

-- Any sequence of bytes, byte strings, integers, varints and strings that the functions of
-- IndexOutput write to a new file, one byte at least and flushed at will between, is what the
-- functions of IndexInput for the same types return, in the same order, from a new stream over the
-- file, where 32-bit varints and sizes of strings are below 2 ^ 21, or at least 2 ^ 28.
pub write_read_items :
    (contents : ℕ → Block) (name : String) (ys : List (Item × Bool))
    → AreItems (items_of ys)
    → 0 < length (items_bytes (items_of ys))
    → (s : RamOutput) × (t : RamInput) × (write_items ⦃impl = ram_output contents⦄ ys
          (new_output name)
        ≡ ok tt s)
      × ((close s).length ≡ length (items_bytes (items_of ys)))
      × (read_items ⦃impl = ram_input⦄ (kinds_of (items_of ys)) (new_input (close s))
          ≡ ok (items_of ys) t)
unfolding ram_output-IsSink ram_input-IsSource
write_read_items contents name ys h some_bytes =
    let xs : List Item = items_of ys in
    let bs : List ℕ = items_bytes xs in
    let sink = ram_output-IsSink contents 0 name in
    let (s, e, r, w) = write_items_lem sink ys (new_output name) 0 (new_output-IsReady name) in
    let (_, len, holds) = closed_lem contents name bs s r w in
    let (t, got, _) =
      read_items_lem (ram_input-IsSource (close s) (length bs)) xs false (new_input (close s)) [] h
        (Ahead-new_input (close s) bs len some_bytes holds) in
    (s, t, e, len, got)
