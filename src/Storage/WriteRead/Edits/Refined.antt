-- ===== src/Storage/WriteRead/Edits/Refined.antt =====
-- An output stream does what its caller thinks of.
use lucanthrope.Base.{
  ℕ, ◌≡◌, ◌∙◌, refl, max, String, Option, none, some, List, [], ◌∷◌, length, leb, true, false,
  dec_le, arith,
}
use lucanthrope.Exception.{Outcome, continue}
use lucanthrope.Io.IndexOutput.{flush, sync}
use lucanthrope.Io.Items.{item_bytes}
use lucanthrope.Io.Items.Written.{write_item_lem}
use lucanthrope.Storage.RamFile.{Block}
use lucanthrope.Storage.RamFileIndexOutput.{RamOutput, new_output, ram_output, close}
use lucanthrope.Storage.RamFileIndexOutput.Memory.{IsReady}
use lucanthrope.Storage.RamFileIndexOutput.Promises.{ram_output-IsSink}
use lucanthrope.Storage.RamFileIndexOutput.Seek.{seek-IsReady, seek_past_end}
use lucanthrope.Storage.RamFileIndexOutput.Flush.{flush-IsReady}
use lucanthrope.Storage.RamFileIndexInput.Memory.{Holds}
use lucanthrope.Storage.WriteRead.{
  new_output-IsReady, Holds-sink, Holds-close, length-close, name-close,
}
use lucanthrope.Storage.WriteRead.Edits.{
  Edit, writes, seeks, flushes, syncs, Text, empty_text, edit, edits, run_edit, run_edits, Matches,
}
use lucanthrope.Storage.WriteRead.Edits.Splices.{length-splice, Holds-splice, Holds-map}

pub record Represents (name : String) (s : RamOutput) (v : Text) : Type 0 where
  pub top : ℕ
  pub ready : IsReady top name s v.at v.at
  pub long : max top v.at ≡ length v.bytes
  pub holds : Holds s.file 0 v.bytes

abbrev pub Follows : String → Outcome RamOutput (Unit {0}) → Option Text → Type 0
Follows name (Outcome.ok u s) (some v) = Represents name s v
Follows name Outcome.aborts none = Unit {0}
Follows name o v = ⊥

flush-Follows :
    (contents : ℕ → Block) (name : String) (s : RamOutput) (v : Text)
    → Represents name s v
    → Follows name (flush ⦃impl = ram_output contents⦄ s) (some v)
flush-Follows contents name s v r =
    let (s', e, ready, same, _) = flush-IsReady contents r.top name s v.at r.ready in
    rw (e, Follows)
      (record {
        top = r.top;
        ready = ready;
        long = r.long;
        holds = Holds-map s.file s'.file 0 v.bytes (λ i x lo hi. same i x) r.holds;
      })

edit_lem :
    (contents : ℕ → Block) (name : String) (e : Edit) (s : RamOutput) (v : Text)
    → Represents name s v
    → Follows name (run_edit contents e s) (edit e v)
unfolding run_edit edit sync ram_output-IsSink
edit_lem contents name (writes x) s v r =
    let sink = ram_output-IsSink contents r.top name in
    let (s', e, ready, w) = write_item_lem sink x s v.at r.ready in
    let long = length-splice v.at (item_bytes x) v.bytes (omega (arith, r.long)) in
    rw (e, Follows)
      (record {
        top = r.top;
        ready = ready;
        long = omega (arith, long, r.long);
        holds =
            Holds-splice s.file s'.file v.at (item_bytes x) v.bytes (omega (arith, r.long)) r.holds
              (Holds-sink contents r.top name s' v.at (item_bytes x) w.holds) w.kept;
      })
edit_lem contents name (seeks q) s v r =
    let len : (close s).length ≡ length v.bytes =
      length-close r.top name s v.at v.at r.ready ∙ r.long in
    elim (dec_le q (length v.bytes)) [
      | yes inside ↦
          let (s', e, ready, same) =
            seek-IsReady contents r.top name s v.at q r.ready (omega (arith, len)) in
          let test : leb q (length v.bytes) ≡ true = ground (arith, inside) in
          rw (e, test, Follows)
            (record {
              top = (close s).length;
              ready = ready;
              long = omega (arith, len);
              holds = Holds-map s.file s'.file 0 v.bytes (λ i x lo hi. same i x) r.holds;
            })
      | no outside ↦
          let test : leb q (length v.bytes) ≡ false = ground (arith, outside) in
          rw (seek_past_end contents s q (omega (arith, len)), test, Follows) tt
    ]
edit_lem contents name flushes s v r = flush-Follows contents name s v r
edit_lem contents name syncs s v r = flush-Follows contents name s v r

-- One call after another.
next_edit :
    (contents : ℕ → Block) (name : String) (es : List Edit) (o : Outcome RamOutput (Unit {0}))
    (a : Option Text)
    → ((s : RamOutput) (v : Text)
        → Represents name s v
        → Follows name (run_edits contents es s) (edits es v))
    → Follows name o a
    → Follows name
        (continue o (λ u. run_edits contents es))
        (elim a [ none ↦ none | some t ↦ edits es t ])
next_edit contents name es (Outcome.ok u s) (some v) k r = k s v r
next_edit contents name es (Outcome.ok u s) none k r = elim r [ ]
next_edit contents name es Outcome.aborts (some v) k r = elim r [ ]
next_edit contents name es Outcome.aborts none k r = tt
next_edit contents name es (Outcome.throws e s) a k r = elim r [ ]
next_edit contents name es Outcome.undefined a k r = elim r [ ]
next_edit contents name es Outcome.diverges a k r = elim r [ ]

edits-Follows :
    (contents : ℕ → Block) (name : String) (es : List Edit) (s : RamOutput) (v : Text)
    → Represents name s v
    → Follows name (run_edits contents es s) (edits es v)
unfolding run_edits edits
edits-Follows contents name [] s v r = r
edits-Follows contents name (e ∷ es) s v r =
    next_edit contents name es (run_edit contents e s) (edit e v) (edits-Follows contents name es)
      (edit_lem contents name e s v r)

pub new_file-Follows :
    (contents : ℕ → Block) (name : String) (es : List Edit)
    → Follows name (run_edits contents es (new_output name)) (edits es empty_text)
unfolding new_output
new_file-Follows contents name es =
    edits-Follows contents name es (new_output name) empty_text
      (record { top = 0; ready = new_output-IsReady name; long = refl; holds = tt })

Represents-Matches :
    (name : String) (o : Outcome RamOutput (Unit {0})) (a : Option Text)
    → Follows name o a
    → Matches name o a
Represents-Matches name (Outcome.ok u s) (some v) r = (
  r.ready.pos,
  name-close s name r.ready.named,
  length-close r.top name s v.at v.at r.ready ∙ r.long,
  Holds-close s 0 v.bytes r.holds,
)
Represents-Matches name (Outcome.ok u s) none r = elim r [ ]
Represents-Matches name Outcome.aborts (some v) r = elim r [ ]
Represents-Matches name Outcome.aborts none r = tt
Represents-Matches name (Outcome.throws e s) a r = elim r [ ]
Represents-Matches name Outcome.undefined a r = elim r [ ]
Represents-Matches name Outcome.diverges a r = elim r [ ]

-- Any sequence of writes of bytes, byte strings, integers, varints and strings, and of calls of
-- `flush`, `sync` and `seek` on a new output stream does what its caller thinks of: as long as no
-- `seek` goes behind the last byte the calls return, each write replaces the bytes at the position
-- and appends where there are none, `pos` is the position, and the file that the destructor hands
-- over has the name of the stream and just those bytes; a `seek` behind the last byte fails an
-- assertion.
pub edits_refine :
    (contents : ℕ → Block) (name : String) (es : List Edit)
    → Matches name (run_edits contents es (new_output name)) (edits es empty_text)
edits_refine contents name es = Represents-Matches name _ _ (new_file-Follows contents name es)
