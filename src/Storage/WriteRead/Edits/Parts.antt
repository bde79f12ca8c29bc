-- ===== src/Storage/WriteRead/Edits/Parts.antt =====
-- Parts of a file that was written in any order, read in any order.
use mathlib.Core.Path.{subst}
use lucanthrope.Base.{
  ℕ, ◌+◌, ◌*◌, ◌≤◌, ◌<◌, ◌≡◌, ◌∙◌, refl, ap, String, some, false, List, [], ◌∷◌, ◌++◌, append-nil,
  length, take, drop, length-take-le, length-drop, arith,
}
use lucanthrope.Exception.{Outcome, ok, Action, pure, ◌>>◌, ◌>>=◌}
use lucanthrope.Io.IndexInput.{read}
use lucanthrope.Io.IndexInput.Reads.{read_prefix}
use lucanthrope.Storage.RamFile.{RamFile, Block, block_size}
use lucanthrope.Storage.RamFileIndexOutput.{RamOutput, new_output, close}
use lucanthrope.Storage.RamFileIndexOutput.Memory.{IsReady}
use lucanthrope.Storage.RamFileIndexInput.{RamInput, new_input, ram_input, seek}
use lucanthrope.Storage.RamFileIndexInput.Memory.{Holds, IsOpen, new_input-IsOpen}
use lucanthrope.Storage.RamFileIndexInput.Seek.{seek-IsOpen}
use lucanthrope.Storage.RamFileIndexInput.End.{end_of-length}
use lucanthrope.Storage.RamFileIndexInput.Promises.{Ahead, ram_input-IsSource}
use lucanthrope.Storage.WriteRead.{Holds-close, length-close}
use lucanthrope.Storage.WriteRead.Edits.{Edit, Text, empty_text, edits, run_edits}
use lucanthrope.Storage.WriteRead.Edits.Splices.{Holds-take, Holds-drop}
use lucanthrope.Storage.WriteRead.Edits.Refined.{Represents, Follows, new_file-Follows}

-- For each part `(q, n)`, `seek(q)` and a read of `n` bytes.
pub read_parts : List (ℕ × ℕ) → Action RamInput (List (List ℕ))
read_parts [] = pure []
read_parts ((q, n) ∷ qs) = do
  seek q
  bs ← read ⦃impl = ram_input⦄ n
  more ← read_parts qs
  pure (bs ∷ more)

-- The parts start at a byte of the file and end in it.
abbrev pub AreParts : ℕ → List (ℕ × ℕ) → Type 0
AreParts len [] = Unit {0}
AreParts len ((q, n) ∷ qs) = (q < len) × (q + n ≤ len) × AreParts len qs

abbrev pub parts_of : List (ℕ × ℕ) → List ℕ → List (List ℕ)
parts_of [] xs = []
parts_of ((q, n) ∷ qs) xs = take n (drop q xs) ∷ parts_of qs xs

module _ (f : RamFile) (xs : List ℕ) (len : f.length ≡ length xs) (holds : Holds f 0 xs)
    (fits : f.length ≤ length f.blocks * block_size) where
  read_part :
      (q n c : ℕ) (s : RamInput)
      → IsOpen s c
      → s.file ≡ f
      → q < length xs
      → q + n ≤ length xs
      → (c' : ℕ) × (t u : RamInput) × (seek q s ≡ ok tt t)
        × (read ⦃impl = ram_input⦄ n t ≡ ok (take n (drop q xs)) u)
        × IsOpen u c'
        × (u.file ≡ f)
  unfolding ram_input-IsSource
  read_part q n c s o same start stop =
      let bs : List ℕ = take n (drop q xs) in
      let size : length bs ≡ n = length-take-le n (drop q xs) (omega (arith, length-drop q xs)) in
      let (t, e, o', file, _) =
        seek-IsOpen s c q o (rw same fits)
          (omega (arith, len, ap (λ (g : RamFile). g.length) same)) in
      let same' : t.file ≡ f = file ∙ same in
      let here : Holds t.file q bs =
        rw same' (Holds-take f n q (drop q xs) (Holds-drop f q 0 q xs (omega arith) holds)) in
      let end_ = end_of-length t q o' in
      let ahead : Ahead f (q + n) false t (bs ++ []) = rw append-nil (
        q,
        o',
        same',
        here,
        (omega arith, omega (arith, end_, len, ap (λ (g : RamFile). g.length) same')),
      ) in
      let (u, e', (c', o'', file', _, _)) =
        read_prefix (ram_input-IsSource f (q + n)) bs false t [] ahead in
      (c', t, u, e, subst (λ m. read ⦃impl = ram_input⦄ m t ≡ ok bs u) size e', o'', file')

  read_parts_lem :
      (qs : List (ℕ × ℕ)) (c : ℕ) (s : RamInput)
      → IsOpen s c
      → s.file ≡ f
      → AreParts (length xs) qs
      → (t : RamInput) × (read_parts qs s ≡ ok (parts_of qs xs) t)
  unfolding read_parts
  read_parts_lem [] c s o same h = (s, refl)
  read_parts_lem ((q, n) ∷ qs) c s o same (start, stop, more) =
      let (c', t, u, e, e', o', file) = read_part q n c s o same start stop in
      let (v, e'') = read_parts_lem qs c' u o' file more in (v, rw (e, e', e'') refl)

  pub read_new :
      (qs : List (ℕ × ℕ))
      → AreParts (length xs) qs
      → (t : RamInput) × (read_parts qs (new_input f) ≡ ok (parts_of qs xs) t)
  unfolding read_parts new_input
  read_new [] h = (new_input f, refl)
  read_new ((q, n) ∷ qs) h =
      read_parts_lem ((q, n) ∷ qs) 0 (new_input f) (new_input-IsOpen f (omega (arith, len, h.0)))
        refl h

pub returned :
    (name : String) (o : Outcome RamOutput (Unit {0})) (v : Text)
    → Follows name o (some v)
    → (s : RamOutput) × (o ≡ ok tt s) × Represents name s v
returned name (Outcome.ok u s) v r = (s, refl, r)
returned name (Outcome.throws e s) v r = elim r [ ]
returned name Outcome.aborts v r = elim r [ ]
returned name Outcome.undefined v r = elim r [ ]
returned name Outcome.diverges v r = elim r [ ]

pub length_fits-close :
    (top : ℕ) (name : String) (s : RamOutput) (p : ℕ)
    → IsReady top name s p p
    → (close s).length ≤ length (close s).blocks * block_size
unfolding close
length_fits-close top name s p r = ground (arith, r.length_fits, r.pos_fits, r.pos)

-- After any sequence of writes and calls of `flush`, `sync` and `seek` on a new output stream that
-- fails no assertion, a new input stream over the file that the destructor hands over returns, for
-- any sequence of parts of the file, each reached by `seek`, just the bytes that the caller of the
-- output stream thinks of there.
pub random_access :
    (contents : ℕ → Block) (name : String) (es : List Edit) (v : Text) (qs : List (ℕ × ℕ))
    → edits es empty_text ≡ some v
    → AreParts (length v.bytes) qs
    → (s : RamOutput) × (t : RamInput) × (run_edits contents es (new_output name) ≡ ok tt s)
      × (read_parts qs (new_input (close s)) ≡ ok (parts_of qs v.bytes) t)
random_access contents name es v qs e h =
    let (s, e', r) =
      returned name _ v (subst (Follows name _) e (new_file-Follows contents name es)) in
    let len = length-close r.top name s v.at v.at r.ready ∙ r.long in
    let (t, e'') =
      read_new (close s) v.bytes len (Holds-close s 0 v.bytes r.holds)
        (length_fits-close r.top name s v.at r.ready) qs h in
    (s, t, e', e'')
