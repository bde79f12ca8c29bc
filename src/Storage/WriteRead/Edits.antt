-- ===== src/Storage/WriteRead/Edits.antt =====
-- A file that is written in any order, with `seek`, `flush` and `sync` between the writes.
pub mod Splices
pub mod Refined
pub mod Parts
use lucanthrope.Base.{
  ℕ, suc, zero, ◌+◌, ◌≤◌, ◌<◌, ◌≡◌, ◌⊎◌, inl, inr, refl, max, String, Option, none, some, List, [],
  ◌∷◌, ◌++◌, length, take, drop, leb, if◌then◌else◌, true, false, dec_le, length-append,
  length-take-le, length-drop, arith,
}
use lucanthrope.Exception.{Outcome, ok, aborts, Action, pure, ◌>>◌}
use lucanthrope.Io.IndexOutput.{flush, sync}
use lucanthrope.Io.IndexOutput.Sink.{Wrote}
use lucanthrope.Io.Items.{Item, item_bytes, write_item}
use lucanthrope.Io.Items.Written.{write_item_lem}
use lucanthrope.Storage.RamFile.{RamFile, Block, Byte}
use lucanthrope.Storage.RamFileIndexOutput.{RamOutput, new_output, ram_output, seek, close}
use lucanthrope.Storage.RamFileIndexOutput.Memory.{IsReady, Keeps}
use lucanthrope.Storage.RamFileIndexOutput.Promises.{ram_output-IsSink}
use lucanthrope.Storage.RamFileIndexOutput.Seek.{seek-IsReady, seek_past_end}
use lucanthrope.Storage.RamFileIndexOutput.Flush.{flush-IsReady}
use lucanthrope.Storage.RamFileIndexInput.Memory.{Holds}
use lucanthrope.Storage.WriteRead.{
  new_output-IsReady, Holds-sink, Holds-close, length-close, name-close,
}

-- A call of an output stream.
pub data Edit : Type 0 where
  writes : Item → Edit
  seeks : ℕ → Edit
  flushes syncs : Edit

-- What the caller of an output stream thinks of: the bytes that are written, and the position.
pub record Text : Type 0 where
  pub bytes : List ℕ
  pub at : ℕ

abbrev pub empty_text : Text
empty_text = record { bytes = []; at = 0 }

-- Bytes replace those at the position, and stand behind the last one where there are none.
abbrev pub splice : ℕ → List ℕ → List ℕ → List ℕ
splice p bs xs = take p xs ++ (bs ++ drop (p + length bs) xs)

-- No text is left when the assertion of `seek` fails.
unfoldable pub edit : Edit → Text → Option Text
edit (writes x) v =
    some (record { bytes = splice v.at (item_bytes x) v.bytes; at = v.at + length (item_bytes x) })
edit (seeks q) v = if leb q (length v.bytes) then some (record v { at = q }) else none
edit flushes v = some v
edit syncs v = some v

unfoldable pub edits : List Edit → Text → Option Text
edits [] v = some v
edits (e ∷ es) v = elim (edit e v) [ none ↦ none | some t ↦ edits es t ]

pub run_edit : (ℕ → Block) → Edit → Action RamOutput (Unit {0})
run_edit contents (writes x) = write_item ⦃impl = ram_output contents⦄ x
run_edit contents (seeks q) = seek contents q
run_edit contents flushes = flush ⦃impl = ram_output contents⦄
run_edit contents syncs = sync ⦃impl = ram_output contents⦄

pub run_edits : (ℕ → Block) → List Edit → Action RamOutput (Unit {0})
run_edits contents [] = pure tt
run_edits contents (e ∷ es) = run_edit contents e >> run_edits contents es

-- The stream returns, and the file that its destructor hands over is the text; or it fails an
-- assertion where no text is left.
abbrev pub Matches : String → Outcome RamOutput (Unit {0}) → Option Text → Type 0
Matches name (Outcome.ok u s) (some v) =
    (s.pos ≡ v.at)
    × ((close s).name ≡ name)
    × ((close s).length ≡ length v.bytes)
    × Holds (close s) 0 v.bytes
Matches name Outcome.aborts none = Unit {0}
Matches name o v = ⊥
