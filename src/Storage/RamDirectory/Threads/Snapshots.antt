-- ===== src/Storage/RamDirectory/Threads/Snapshots.antt =====
-- What the reader of a file sees while other threads go on.
use lucanthrope.Base.{
  ℕ, ◌+◌, ◌≡◌, ◌∙◌, refl, sym, ap, String, List, ◌∷◌, ◌++◌, some, inl, inr, arith,
}
use lucanthrope.Exception.{ok}
use lucanthrope.Storage.RamFile.{RamFile}
use lucanthrope.Storage.RamFileIndexInput.{RamInput}
use lucanthrope.Storage.RamDirectory.{RamDirectory, open_input}
use lucanthrope.Storage.RamDirectory.References.{occurrences}
use lucanthrope.Storage.RamDirectory.Worlds.{World, opened}
use lucanthrope.Storage.RamDirectory.Worlds.Contents.{opened_stream}
use lucanthrope.Storage.RamDirectory.Lifetime.{reader_keeps_file}
use lucanthrope.Storage.RamDirectory.Threads.{Shared, Turn, whole, Threads, settled_dir, settle}
use lucanthrope.Storage.RamDirectory.Threads.Orderly.{IsOrderly, settled_some}
use lucanthrope.Storage.RamDirectory.Threads.Turns.{Turn-Step, Turn-IsOrderly, Threads-IsOrderly}

-- Turns of the threads after each of which an input stream on the file at `p` is open.
pub data While (p : ℕ) : Shared → Shared → Type 0 where
  none_yet : (s : Shared) → While p s s
  one_more :
      {s s' s'' : Shared} (before after : List ℕ)
      → While p s s'
      → Turn s' s''
      → s''.world.readers ≡ before ++ p ∷ after
      → While p s s''

-- The file at `p` is there, with these blocks and this length.
abbrev Kept : ℕ → RamFile → Shared → Type 0
Kept p f s =
    (g : RamFile) × ((settled_dir s.doomed s.world.dir).heap p ≡ some g)
    × (g.blocks ≡ f.blocks)
    × (g.length ≡ f.length)

Turn-Kept :
    (p : ℕ) (f : RamFile) {s s' : Shared} (before after : List ℕ)
    → Turn s s'
    → IsOrderly s
    → s'.world.readers ≡ before ++ p ∷ after
    → Kept p f s
    → Kept p f s'
Turn-Kept p f {s} {s'} before after t i opens (g, here, blocks, len) = elim (Turn-Step t i) [
  | inl same ↦ (g, ap (λ (w : World). w.dir.heap p) (sym same) ∙ here, blocks, len)
  | inr step ↦
      let (h, there, blocks', len') =
        reader_keeps_file (settle s) (settle s') p g before after i.reach step here opens in
      (h, there, blocks' ∙ blocks, len' ∙ len)
]

While-Kept :
    (p : ℕ) (f : RamFile) {s s' : Shared}
    → While p s s'
    → IsOrderly s
    → Kept p f s
    → IsOrderly s' × Kept p f s'
While-Kept p f (none_yet s) i k = (i, k)
While-Kept p f (one_more before after w t opens) i k =
    let (i', k') = While-Kept p f w i k in
    (Turn-IsOrderly t i', Turn-Kept p f before after t i' opens k')

-- Whatever the threads have done in whatever order before openInput returns a stream, and whatever
-- they do while this stream is open, deletion and renaming of its file and deallocations included,
-- if they rename finished files only and the container does not rehash then, the file is there, with
-- the blocks and the length that the stream has of it.
pub open_stream_keeps :
    (s s' : Shared) (k : String) (p : ℕ) (t : RamInput) (d' : RamDirectory)
    → Threads s
    → open_input k s.world.dir ≡ ok (p, t) d'
    → While p (record s { world = record (s.world) { dir = d'; readers = p ∷ s.world.readers } }) s'
    → (g : RamFile) × (s'.world.dir.heap p ≡ some g)
      × (g.blocks ≡ t.file.blocks)
      × (g.length ≡ t.file.length)
open_stream_keeps s s' k p t d' threads e while =
    let i = Turn-IsOrderly (whole s _ (opened s.world k p t d' e) tt) (Threads-IsOrderly threads) in
    let here = opened_stream k p t s.world.dir d' e in
    let free : occurrences p s.doomed ≡ 0 = ground (arith, i.dead p, here) in
    let first : (settled_dir s.doomed d').heap p
        ≡ some (record (t.file) { refs = t.file.refs + 1 }) =
      ground (arith, free, here) in
    let (_, (g, there, blocks, len)) = While-Kept p t.file while i (_, first, refl, refl) in
    (g, (settled_some s'.doomed p g s'.world.dir there).1, blocks, len)
