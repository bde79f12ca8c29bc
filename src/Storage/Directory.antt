-- ===== src/Storage/Directory.antt =====
-- The interface of include/lucanthrope/storage/Directory.h, what its comments promise of each call,
-- and where RAMDirectory fails an assertion instead, as functions on a listing of names.
use lucanthrope.Base.{
  ℕ, Bool, true, false, String, List, Option, none, some, str_eq, if◌then◌else◌, ◌==◌,
}
use lucanthrope.Exception.{Code, Action, file_not_found_exception, file_already_exists_exception}
use lucanthrope.Storage.RamFile.{RamFile, Block}

-- The virtual functions of a Directory with state `S`, which hands out output streams, input streams
-- and locks; the null pointer of obtainLock is `none`.
pub record Directory (S Output Input Lock : Type 0) : Type 0 where
  pub list_all : Action S (List String)
  pub delete_file : String → Action S (Unit {0})
  pub file_length : String → Action S ℕ
  pub create_output : String → Action S Output
  pub rename : String → String → Action S (Unit {0})
  pub open_input : String → Action S Input
  pub obtain_lock : String → Action S (Option Lock)
  pub file_exists : String → Action S Bool
  pub delete_segment : String → Action S (Unit {0})

-- A name that is there belongs to a file that is still written, or to a lock, or to a finished file
-- with its blocks and its length.
pub data Entry : Type 0 where
  unfinished : Entry
  finished : List Block → ℕ → Entry

abbrev pub Listing : Type 0
Listing = String → Option Entry

abbrev pub change : Listing → String → Option Entry → Listing
change a k e j = if str_eq k j then e else a j

-- The calls of the interface, and the destructors of an output stream that hands over `f`, of an
-- input stream on the file at an address, and of a lock.
pub data Call : Type 0 where
  list_all : Call
  create_output delete_file open_input obtain_lock file_exists file_length : String → Call
  rename : String → String → Call
  close_output : RamFile → Call
  close_input : ℕ → Call
  close_lock : String → Call

-- What the caller sees: a value, an exception, an exception whose code the comments leave open
-- (`refused`), or a failed assertion. A list of names, whose order nothing promises, is how often
-- each name stands in it.
pub data Answer : Type 0 where
  done : Answer
  flag : Bool → Answer
  listed : (String → ℕ) → Answer
  size : ℕ → Answer
  stream : List Block → ℕ → Answer
  threw : Code → Answer
  refused : Answer
  failed : Answer

abbrev pub once : Option Entry → ℕ
once none = 0
once (some e) = 1

-- The comments promise that deleteFile removes an existing file, finished or not, and that openInput
-- throws for an unfinished file and returns a stream for any other existing one. Of the destructors
-- they say nothing: the names of streams and locks are taken to be there, as `commit` and
-- `releaseLock` assert.
unfoldable pub promised : Call → Listing → Answer × Listing
promised list_all a = (listed (λ k. once (a k)), a)
promised (create_output k) a = elim (a k) [
  | none ↦ (done, change a k (some unfinished))
  | some e ↦ (threw file_already_exists_exception, a)
]
promised (delete_file k) a = elim (a k) [
  | none ↦ (threw file_not_found_exception, a)
  | some e ↦ (done, change a k none)
]
promised (open_input k) a = elim (a k) [
  | none ↦ (threw file_not_found_exception, a)
  | some unfinished ↦ (refused, a)
  | some (finished blocks n) ↦ (stream blocks n, a)
]
promised (obtain_lock k) a = elim (a k) [
  | none ↦ (flag true, change a k (some unfinished))
  | some e ↦ (flag false, a)
]
promised (file_exists k) a = elim (a k) [ none ↦ (flag false, a) | some e ↦ (flag true, a) ]
promised (file_length k) a = elim (a k) [
  | none ↦ (threw file_not_found_exception, a)
  | some unfinished ↦ (size 0, a)
  | some (finished blocks n) ↦ (size n, a)
]
promised (rename src target) a = elim (a src) [
  | none ↦ (threw file_not_found_exception, a)
  | some e ↦ elim (a target) [
    | none ↦ (done, change (change a target (some e)) src none)
    | some other ↦ (threw file_already_exists_exception, a)
  ]
]
promised (close_output f) a = elim (a f.name) [
  | some unfinished ↦ (done, change a f.name (some (finished f.blocks f.length)))
  | other ↦ (failed, a)
]
promised (close_input p) a = (done, a)
promised (close_lock k) a = elim (a k) [
  | none ↦ (done, a)
  | some unfinished ↦ (done, change a k none)
  | some (finished blocks n) ↦ (failed, a)
]

-- Where RAMDirectory fails an assertion although the comments promise something else: openInput of
-- an unfinished or an empty file, and deleteFile of an unfinished one.
unfoldable pub departs : Call → Listing → Bool
departs (delete_file k) a = elim (a k) [ some unfinished ↦ true | other ↦ false ]
departs (open_input k) a = elim (a k) [
  | none ↦ false
  | some unfinished ↦ true
  | some (finished blocks n) ↦ n == 0
]
departs other a = false

-- The promised answer, or the failed assertion in its place.
unfoldable pub answered : Call → Listing → Answer × Listing
unfolding promised departs
answered c a = if departs c a then (failed, a) else promised c a
