-- ===== src/Storage/RamDirectory/Sessions.antt =====
-- Whole sessions of a RAMDirectory's clients, and the answers that they get.
pub mod Snapshots
pub mod Looks
pub mod Names
pub mod Streams
pub mod Whole
use lucanthrope.Base.{
  ℕ, suc, ◌+◌, Bool, true, false, String, List, [], ◌∷◌, ◌++◌, Option, none, some, get_elem?, take,
  drop, ◌≢◌,
}
use lucanthrope.Exception.{Outcome, ok, throws, aborts, undefined, diverges, Action}
use lucanthrope.Storage.RamFile.{RamFile, Block, new_file}
use lucanthrope.Storage.FileMap.{Files}
use lucanthrope.Storage.Directory.{
  Call, unfinished, Listing, Answer, done, flag, listed, size, stream, threw, failed, answered,
}
use lucanthrope.Storage.RamDirectory.{RamDirectory, finish_writing, close_input, close_lock}
use lucanthrope.Storage.RamDirectory.Worlds.{World, held}
use lucanthrope.Storage.RamDirectory.Refinement.{ram_directory}

-- What a client asks for. An open input stream, and an open output stream or a lock that is held, is
-- named by its place among those that are open, the youngest first; an output stream that ends
-- hands over blocks and a length, and the bytes of a file are read through an input stream.
pub data Request : Type 0 where
  lists : Request
  creates locks deletes opens asks measures : String → Request
  renames : String → String → Request
  finishes : ℕ → List Block → ℕ → Request
  releases reads closes : ℕ → Request

-- What the clients of the interface think of: the listing, for each open input stream the bytes that
-- its file had when it was opened, and the names of the open output streams and the locks.
pub record Session : Type 0 where
  pub listing : Listing
  pub snapshots : List (List Block × ℕ)
  pub holds : List String

abbrev pub remove : {A : Type 0} → ℕ → List A → List A
remove n xs = take n xs ++ drop (suc n) xs

abbrev pub file_of : String → List Block → ℕ → RamFile
file_of name blocks len = record (new_file name) { blocks = blocks; length = len }

abbrev pub granted : Answer → String → List String → List String
granted done k ks = k ∷ ks
granted (flag true) k ks = k ∷ ks
granted other k ks = ks

abbrev pub taken : Answer → List (List Block × ℕ) → List (List Block × ℕ)
taken (stream blocks len) ss = (blocks, len) ∷ ss
taken other ss = ss

-- The answer that the interface promises or the assertion that fails instead, and the session after
-- it. A stream or lock that is not
-- there is not asked.
unfoldable pub expected : Request → Session → Answer × Session
expected lists a = let p = answered Call.list_all a.listing in (p.0, record a { listing = p.1 })
expected (creates k) a =
    let p = answered (Call.create_output k) a.listing in
    (p.0, record a { listing = p.1; holds = granted p.0 k a.holds })
expected (locks k) a =
    let p = answered (Call.obtain_lock k) a.listing in
    (p.0, record a { listing = p.1; holds = granted p.0 k a.holds })
expected (deletes k) a =
    let p = answered (Call.delete_file k) a.listing in (p.0, record a { listing = p.1 })
expected (opens k) a =
    let p = answered (Call.open_input k) a.listing in
    (p.0, record a { listing = p.1; snapshots = taken p.0 a.snapshots })
expected (asks k) a =
    let p = answered (Call.file_exists k) a.listing in (p.0, record a { listing = p.1 })
expected (measures k) a =
    let p = answered (Call.file_length k) a.listing in (p.0, record a { listing = p.1 })
expected (renames src target) a =
    let p = answered (Call.rename src target) a.listing in (p.0, record a { listing = p.1 })
expected (finishes n blocks len) a = elim (get_elem? a.holds n) [
  | none ↦ (done, a)
  | some k ↦
      let p = answered (Call.close_output (file_of k blocks len)) a.listing in
      (p.0, record a { listing = p.1; holds = remove n a.holds })
]
expected (releases n) a = elim (get_elem? a.holds n) [
  | none ↦ (done, a)
  | some k ↦
      let p = answered (Call.close_lock k) a.listing in
      (p.0, record a { listing = p.1; holds = remove n a.holds })
]
expected (reads n) a = elim (get_elem? a.snapshots n) [
  | none ↦ (done, a)
  | some (blocks, len) ↦ (stream blocks len, a)
]
expected (closes n) a = (done, record a { snapshots = remove n a.snapshots })

-- A call that returns or throws, what the caller sees of it, and the world then.
abbrev pub reply :
    {A : Type 0}
    → Outcome RamDirectory A
    → (A → Answer)
    → (A → RamDirectory → World)
    → World
    → Outcome World Answer
reply (ok x d) f g w = ok (f x) (g x d)
reply (throws e d) f g w = ok (threw e.code) (record w { dir = d })
reply aborts f g w = aborts
reply undefined f g w = undefined
reply diverges f g w = diverges

module _ (r : Files → Bool) where
  unfoldable pub serve : Request → Action World Answer
  serve lists w =
      reply ((ram_directory r).list_all w.dir) (λ ns. listed (λ k. held k ns))
        (λ ns d. record w { dir = d }) w
  serve (creates k) w =
      reply ((ram_directory r).create_output k w.dir) (λ s. done)
        (λ s d. record w { dir = d; writers = k ∷ w.writers }) w
  serve (locks k) w =
      reply ((ram_directory r).obtain_lock k w.dir)
        (λ l. flag (elim l [ none ↦ false | some j ↦ true ]))
        (λ l d. record w {
          dir = d;
          writers = elim l [ none ↦ w.writers | some j ↦ j ∷ w.writers ];
        })
        w
  serve (deletes k) w =
      reply ((ram_directory r).delete_file k w.dir) (λ u. done) (λ u d. record w { dir = d }) w
  serve (opens k) w =
      reply ((ram_directory r).open_input k w.dir) (λ s. stream s.1.file.blocks s.1.file.length)
        (λ s d. record w { dir = d; readers = s.0 ∷ w.readers }) w
  serve (asks k) w =
      reply ((ram_directory r).file_exists k w.dir) flag (λ b d. record w { dir = d }) w
  serve (measures k) w =
      reply ((ram_directory r).file_length k w.dir) size (λ n d. record w { dir = d }) w
  serve (renames src target) w =
      reply ((ram_directory r).rename src target w.dir) (λ u. done) (λ u d. record w { dir = d }) w
  serve (finishes n blocks len) w = elim (get_elem? w.writers n) [
    | none ↦ ok done w
    | some k ↦
        reply (finish_writing (file_of k blocks len) w.dir) (λ u. done)
          (λ u d. record w { dir = d; writers = remove n w.writers }) w
  ]
  serve (releases n) w = elim (get_elem? w.writers n) [
    | none ↦ ok done w
    | some k ↦
        reply (close_lock k w.dir) (λ u. done)
          (λ u d. record w { dir = d; writers = remove n w.writers }) w
  ]
  serve (reads n) w = elim (get_elem? w.readers n) [
    | none ↦ ok done w
    | some p ↦ elim (w.dir.heap p) [ none ↦ undefined | some f ↦ ok (stream f.blocks f.length) w ]
  ]
  serve (closes n) w = elim (get_elem? w.readers n) [
    | none ↦ ok done w
    | some p ↦
        reply (close_input p w.dir) (λ u. done)
          (λ u d. record w { dir = d; readers = remove n w.readers }) w
  ]

  -- The answers up to the first failed assertion; no answer where the behaviour is undefined.
  unfoldable pub replay : List Request → World → List (Option Answer)
  replay [] w = []
  replay (q ∷ qs) w = elim (serve q w) [
    | ok y v ↦ some y ∷ replay qs v
    | throws e v ↦ none ∷ []
    | aborts ↦ some failed ∷ []
    | undefined ↦ none ∷ []
    | diverges ↦ none ∷ []
  ]

abbrev pub unless_failed : Answer → List (Option Answer) → List (Option Answer)
unless_failed failed ys = []
unless_failed other ys = ys

unfoldable pub foretold : List Request → Session → List (Option Answer)
foretold [] a = []
foretold (q ∷ qs) a = let p = expected q a in some (p.0) ∷ unless_failed (p.0) (foretold qs (p.1))

-- The clients rename no file that is still written, and no lock.
abbrev pub MayAsk : Request → Session → Type 0
MayAsk (renames src target) a = a.listing src ≢ some unfinished
MayAsk other a = Unit {0}

abbrev pub MayAskAll : List Request → Session → Type 0
MayAskAll [] a = Unit {0}
MayAskAll (q ∷ qs) a = MayAsk q a × MayAskAll qs (expected q a).1
