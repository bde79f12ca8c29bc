-- ===== src/Storage/RamFileIndexOutput/Promises.antt =====
-- RAMFileIndexOutput keeps the promises of `IsSink`.
use lucanthrope.Base.{ℕ, ◌+◌, ◌-◌, ◌<◌, ◌≡◌, true, false, String, max, arith, refl, ap}
use lucanthrope.Io.IndexOutput.Sink.{IsSink}
use lucanthrope.Storage.RamFile.{Block, Byte}
use lucanthrope.Storage.RamFileIndexOutput.{RamOutput, ram_output}
use lucanthrope.Storage.RamFileIndexOutput.Memory.{IsReady, store_byte_lem}
use lucanthrope.Storage.RamFileIndexOutput.Growth.{init_lem, advance_lem}
use lucanthrope.Storage.RamFileIndexOutput.Flush.{write_impl_lem}

pub empty_lem :
    (top : ℕ) (name : String) (s : RamOutput) (c p : ℕ)
    → IsReady top name s c p
    → s.buffered ≡ false
    → s.buf_end - s.buf_cur ≡ 0
empty_lem top name s c p r h = ground (arith, h, r.placed)

pub full_lem :
    (top : ℕ) (name : String) (s : RamOutput) (c p : ℕ)
    → IsReady top name s c p
    → s.buffered ≡ true
    → s.buf_end - s.buf_cur ≡ 0
    → 0 < s.buf_cur - s.buf_start
full_lem top name s c p r h e = ground (arith, h, e, r.placed)

-- A move of `pos` from the cursor forward.
pub tall-move : (l q top p n : ℕ) → max l q ≡ max top p → q ≡ p → max l (q + n) ≡ max top (p + n)
tall-move l q top p n h e = omega arith

module _ (contents : ℕ → Block) where
  -- RAMFileIndexOutput keeps the promises of `IsSink`.
  unfoldable pub ram_output-IsSink : (top : ℕ) (name : String) → IsSink (ram_output contents)
  unfolding ram_output
  ram_output-IsSink top name = record {
    Ready = IsReady top name;
    Byte = λ s. Byte s.file;
    store = store_byte_lem top name;
    init = init_lem contents top name;
    empty = empty_lem top name;
    full = full_lem top name;
    advance = advance_lem contents top name;
    flush_lem = write_impl_lem contents top name;
    move_lem = λ s c p n r. (
      record {
        placed = r.placed;
        cursor = r.cursor;
        pos = ap (λ (t : ℕ). t + n) r.pos;
        tall = tall-move s.file.length s.pos top p n r.tall r.pos;
        named = r.named;
        length_fits = r.length_fits;
        pos_fits = r.pos_fits;
      },
      refl,
      refl,
    );
    move-Byte = λ s n i x b. b;
  }
