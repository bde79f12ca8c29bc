-- ===== src/Storage/RamDirectory/Threads/Retrieval.antt =====
-- A file from the destructor of its output stream to a reader, with other threads between them.
use mathlib.Core.Path.{subst}
use lucanthrope.Base.{
  ℕ, ◌*◌, ◌≤◌, ◌<◌, ◌≡◌, ◌∙◌, refl, sym, String, List, ◌∷◌, ◌++◌, some, length, arith, str_eq_iff,
  ◌+◌,
}
use lucanthrope.Exception.{ok}
use lucanthrope.Storage.RamFile.{RamFile, Block, block_size}
use lucanthrope.Storage.FileMap.{file, find}
use lucanthrope.Storage.FileMap.Laws.{find-put}
use lucanthrope.Storage.RamFileIndexOutput.{RamOutput, new_output, close}
use lucanthrope.Storage.RamFileIndexInput.{RamInput, new_input}
use lucanthrope.Storage.RamFileIndexInput.Memory.{Holds}
use lucanthrope.Storage.RamDirectory.{
  RamDirectory, set_heap, commit, close_output, open_input, open_at,
}
use lucanthrope.Storage.RamDirectory.References.{occurrences}
use lucanthrope.Storage.RamDirectory.Worlds.{committed}
use lucanthrope.Storage.RamDirectory.Threads.{Shared, Threads, whole}
use lucanthrope.Storage.RamDirectory.Threads.Orderly.{IsOrderly, settled_some}
use lucanthrope.Storage.RamDirectory.Threads.Turns.{Turn-IsOrderly, Threads-IsOrderly}
use lucanthrope.Storage.RamDirectory.Threads.Persistence.{Undeleted, Persists, Undeleted-Persists}
use lucanthrope.Storage.WriteRead.{Holds-close, length-close, name-close}
use lucanthrope.Storage.WriteRead.Edits.{Edit, Text, empty_text, edits, run_edits}
use lucanthrope.Storage.WriteRead.Edits.Splices.{Holds-map}
use lucanthrope.Storage.WriteRead.Edits.Refined.{Represents, Follows, new_file-Follows}
use lucanthrope.Storage.WriteRead.Edits.Parts.{
  read_parts, AreParts, parts_of, read_new, returned, length_fits-close,
}

-- What the directory has of a file that is read.
record Contents (f : RamFile) (xs : List ℕ) : Type 0 where
  pub long : f.length ≡ length xs
  pub holds : Holds f 0 xs
  pub fits : f.length ≤ length f.blocks * block_size

Contents-same :
    (f g : RamFile) (xs : List ℕ)
    → g.blocks ≡ f.blocks
    → g.length ≡ f.length
    → Contents f xs
    → Contents g xs
Contents-same f g xs blocks len c = record {
  long = len ∙ c.long;
  holds = Holds-map f g 0 xs (λ i x lo hi h. rw blocks h) c.holds;
  fits = rw (len, blocks) c.fits;
}

close-Contents :
    (name : String) (s : RamOutput) (v : Text) → Represents name s v → Contents (close s) v.bytes
close-Contents name s v r = record {
  long = length-close r.top name s v.at v.at r.ready ∙ r.long;
  holds = Holds-close s 0 v.bytes r.holds;
  fits = length_fits-close r.top name s v.at r.ready;
}

commit-Persists :
    (s : Shared) (k : String) (f : RamFile) (d : RamDirectory) (readers : List ℕ)
    (writers : List String)
    → IsOrderly s
    → commit k f s.world.dir ≡ ok tt d
    → Persists k f (record s { world = record { dir = d; readers = readers; writers = writers } })
unfolding commit
commit-Persists s k f d readers writers i e =
    let next : ℕ = s.world.dir.next in
    let name : find k d.files ≡ some (file next) =
      ground (arith, e, find-put k k (file next) s.world.dir.files, str_eq_iff k k) in
    let free : occurrences next s.doomed ≡ 0 = ground (arith, i.dead next, i.unused next) in
    (next, record f { refs = 1 }, name, ground (arith, e, free), refl, refl)

open_named :
    (k : String) (p : ℕ) (f : RamFile) (d : RamDirectory)
    → find k d.files ≡ some (file p)
    → d.heap p ≡ some f
    → 0 < f.length
    → open_input k d ≡ ok (p, new_input f) (set_heap p (some (record f { refs = f.refs + 1 })) d)
unfolding open_input open_at
open_named k p f d old here some_bytes = ground (arith, old, here, some_bytes)

-- Whatever the threads have done in whatever order, an output stream is open under a name; the
-- calls of this stream, writes in any order with `seek`, `flush` and `sync` between them, have
-- returned, one byte at least is written, and the destructor of the stream has returned. Then, after
-- anything that the threads do further in whatever order without the deletion of this file, if they
-- rename finished files only and the container does not rehash then, openInput returns a stream for
-- the name that the file has then, after all its renamings, and any parts of the file that it reads,
-- each reached by `seek`, are just the bytes that the caller of the output stream thinks of there.
pub file_persists :
    (contents : ℕ → Block) (name : String) (es : List Edit) (v : Text) (qs : List (ℕ × ℕ))
    (s s' : Shared) (k : String) (before after : List String) (o : RamOutput) (d : RamDirectory)
    → Threads s
    → s.world.writers ≡ before ++ name ∷ after
    → edits es empty_text ≡ some v
    → 0 < length v.bytes
    → AreParts (length v.bytes) qs
    → run_edits contents es (new_output name) ≡ ok tt o
    → close_output o s.world.dir ≡ ok tt d
    → Undeleted name
        (record s { world = record (s.world) { dir = d; writers = before ++ after } })
        k
        s'
    → (p : ℕ) × (t u : RamInput) × (d' : RamDirectory) × (open_input k s'.world.dir ≡ ok (p, t) d')
      × (read_parts qs t ≡ ok (parts_of qs v.bytes) u)
unfolding close_output
file_persists contents name es v qs s s' k before after o d threads opens text bytes parts run ends
      u =
    let (o', e, r') =
      returned name _ v (subst (Follows name _) text (new_file-Follows contents name es)) in
    let same : o' ≡ o = cc (sym e ∙ run) in
    let r : Represents name o v = subst (λ o. Represents name o v) same r' in
    let commits : commit name (close o) s.world.dir ≡ ok tt d =
      subst (λ j. commit j (close o) s.world.dir ≡ ok tt d) (name-close o name r.ready.named)
        ends in
    let i = Threads-IsOrderly threads in
    let ended = whole s _ (committed s.world name before after (close o) d opens commits) tt in
    let first = commit-Persists s name (close o) d s.world.readers (before ++ after) i commits in
    let (_, (p, g, old, here, blocks, len)) =
      Undeleted-Persists (close o) name u (Turn-IsOrderly ended i) first in
    let there = (settled_some s'.doomed p g s'.world.dir here).1 in
    let c = Contents-same (close o) g v.bytes blocks len (close-Contents name o v r) in
    let (t, e') = read_new g v.bytes c.long c.holds c.fits qs parts in
    (
      p,
      new_input g,
      t,
      set_heap p (some (record g { refs = g.refs + 1 })) s'.world.dir,
      open_named k p g s'.world.dir old there (omega (arith, c.long)),
      e',
    )
