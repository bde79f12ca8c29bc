-- ===== src/Storage/RamDirectory.antt =====
-- RAMDirectory of include/lucanthrope/storage/RAMDirectory.h and lib/storage/RAMDirectory.cpp, and
-- RAMDirectoryLockFile. The mutex makes each function one step; Threads has what comes after it.
pub mod References
pub mod Worlds
pub mod Lifetime
pub mod Behaviour
pub mod RoundTrip
pub mod Refinement
pub mod Shutdown
pub mod Threads
pub mod Sessions
use Prim.Native.String.{◌++◌ as str_append}
use lucanthrope.Base.{
  ℕ, zero, suc, ◌+◌, ◌-◌, Bool, true, false, String, List, [], ◌∷◌, Option, none, some, ◌==◌,
  if◌then◌else◌, starts_with,
}
use lucanthrope.Exception.{
  Outcome, ok, aborts, undefined, Action, pure, throw, modify, ◌>>=◌, ◌>>◌,
  file_not_found_exception, file_already_exists_exception,
}
use lucanthrope.Storage.RamFile.{RamFile}
use lucanthrope.Storage.FileMap.{Slot, Files, dummy, file, find, put, erase, names}
use lucanthrope.Storage.RamFileIndexOutput.{RamOutput, new_output, close}
use lucanthrope.Storage.RamFileIndexInput.{RamInput, new_input}

-- `heap` holds the committed files by their address; `next` is an address not used so far.
pub record RamDirectory : Type 0 where
  pub files : Files
  pub heap : ℕ → Option RamFile
  pub next : ℕ

unfoldable pub new_directory : RamDirectory
new_directory = record { files = []; heap = λ p. none; next = 0 }

abbrev pub Dir : Type 0 → Type 0
Dir A = Action RamDirectory A

abbrev pub set_heap : ℕ → Option RamFile → RamDirectory → RamDirectory
set_heap p f d = record d { heap = λ q. if p == q then f else d.heap q }

abbrev pub set_files : Files → RamDirectory → RamDirectory
set_files m d = record d { files = m }

message : String → String → String → String
message where_ fname what = str_append where_ (str_append fname what)

-- `commit(fname, file)`: the address of `file` is `next`.
unfoldable pub commit : String → RamFile → Dir (Unit {0})
commit fname f d = elim (find fname d.files) [
  | none ↦ aborts
  | some dummy ↦ ok tt (record d {
    files = put fname (file d.next) d.files;
    heap = λ q. if d.next == q then some (record f { refs = 1 }) else d.heap q;
    next = d.next + 1;
  })
  | some (file p) ↦ aborts
]

-- `--file->refs_`, and the file is deallocated with the last reference. A file that is gone must
-- not be touched; one that is there has a count of 1 at least.
pub drop_ref : ℕ → Option RamFile → Dir (Unit {0})
drop_ref p none d = undefined
drop_ref p (some f) d =
    if f.refs == 1
    then ok tt (set_heap p none d)
    else ok tt (set_heap p (some (record f { refs = f.refs - 1 })) d)

pub unref_reader : ℕ → Dir (Unit {0})
unfolding drop_ref
unref_reader p d = drop_ref p (d.heap p) d

-- A missing name is only worth a warning.
pub release_lock : String → Dir (Unit {0})
release_lock fname d = elim (find fname d.files) [
  | none ↦ ok tt d
  | some dummy ↦ ok tt (set_files (erase fname d.files) d)
  | some (file p) ↦ aborts
]

pub list_all : Dir (List String)
list_all d = ok (names d.files) d

pub delete_file : String → Dir (Unit {0})
unfolding drop_ref message
delete_file fname d = elim (find fname d.files) [
  | none ↦
      throw file_not_found_exception
        (message "In RAMDirectory::deleteFile(): File named " fname " is not found in RAMDirectory")
        d
  | some dummy ↦ aborts
  | some (file p) ↦ drop_ref p (d.heap p) (set_files (erase fname d.files) d)
]

pub length_at : Option RamFile → Dir ℕ
length_at none d = undefined
length_at (some f) d = ok f.length d

-- The length of `dummy_file` is 0.
pub file_length : String → Dir ℕ
unfolding length_at message
file_length fname d = elim (find fname d.files) [
  | none ↦
      throw file_not_found_exception
        (message "In RAMDirectory::fileLength(): File named " fname " is not found in RAMDirectory")
        d
  | some dummy ↦ ok 0 d
  | some (file p) ↦ length_at (d.heap p) d
]

unfoldable pub create_output : String → Dir RamOutput
unfolding message
create_output fname d = elim (find fname d.files) [
  | none ↦ ok (new_output fname) (set_files (put fname dummy d.files) d)
  | some slot ↦
      throw file_already_exists_exception
        (message "In RAMDirectory::createOutput(): File named " fname
          " already exists in RAMDirectory")
        d
]

-- `files[target] = it_src->second; files.erase(it_src)`. Where the new name makes the container
-- rehash, `it_src` is invalid afterwards; `rehashes` says when it does.
unfoldable pub rename : (Files → Bool) → String → String → Dir (Unit {0})
unfolding message
rename rehashes src target d = elim (find src d.files) [
  | none ↦
      throw file_not_found_exception
        (message "In RAMDirectory::rename(): File named " src " is not found in RAMDirectory") d
  | some slot ↦ elim (find target d.files) [
    | none ↦
        if rehashes d.files
        then undefined
        else ok tt (set_files (erase src (put target slot d.files)) d)
    | some other ↦
        throw file_already_exists_exception
          (message "In RAMDirectory::rename(): File named " target
            " already exists in RAMDirectory")
          d
  ]
]

-- The constructor of the stream asserts that the file is not empty.
unfoldable pub open_at : ℕ → Option RamFile → Dir (ℕ × RamInput)
open_at p none d = undefined
open_at p (some f) d =
    if f.length == 0
    then aborts
    else ok (p, new_input f) (set_heap p (some (record f { refs = f.refs + 1 })) d)

-- A stream, and the address of its file.
unfoldable pub open_input : String → Dir (ℕ × RamInput)
unfolding open_at message
open_input fname d = elim (find fname d.files) [
  | none ↦
      throw file_not_found_exception
        (message "In RAMDirectory::openInput(): File named " fname " is not found in RAMDirectory")
        d
  | some dummy ↦ aborts
  | some (file p) ↦ open_at p (d.heap p) d
]

-- The name of the lock file, or the null pointer.
unfoldable pub obtain_lock : String → Dir (Option String)
obtain_lock fname d = elim (find fname d.files) [
  | none ↦ ok (some fname) (set_files (put fname dummy d.files) d)
  | some slot ↦ ok none d
]

pub file_exists : String → Dir Bool
file_exists fname d = elim (find fname d.files) [ none ↦ ok false d | some slot ↦ ok true d ]

-- The loop of `deleteSegment`: the first name that begins with `segment` fails the assertion, or
-- its entry is erased, on which the iterator of the loop stands that is then incremented.
unfoldable pub segment_loop : String → Files → Dir (Unit {0})
segment_loop segment [] d = ok tt d
segment_loop segment ((k, dummy) ∷ rest) d =
    if starts_with k segment then undefined else segment_loop segment rest d
segment_loop segment ((k, file p) ∷ rest) d =
    if starts_with k segment then aborts else segment_loop segment rest d

unfoldable pub delete_segment : String → Dir (Unit {0})
unfolding segment_loop
delete_segment segment d = segment_loop segment d.files d

-- `RAMFile::finish_writing` and `RAMFile::finish_reading`
abbrev pub finish_writing : RamFile → Dir (Unit {0})
finish_writing f = commit f.name f

abbrev pub finish_reading : ℕ → Dir (Unit {0})
finish_reading = unref_reader

-- `~RAMFileIndexOutput`
unfoldable pub close_output : RamOutput → Dir (Unit {0})
unfolding commit
close_output s = finish_writing (close s)

-- `~RAMFileIndexInput`, `~RAMDirectoryLockFile`
abbrev pub close_input : ℕ → Dir (Unit {0})
close_input = finish_reading

abbrev pub close_lock : String → Dir (Unit {0})
close_lock = release_lock

-- The loop of `~RAMDirectory`.
pub destroy_loop : Files → Dir (Unit {0})
destroy_loop [] d = ok tt d
destroy_loop ((k, dummy) ∷ rest) d = destroy_loop rest d
destroy_loop ((k, file p) ∷ rest) d = elim (d.heap p) [
  | none ↦ undefined
  | some f ↦ elim (f.refs == 1) [ true ↦ destroy_loop rest (set_heap p none d) | false ↦ aborts ]
]

pub destroy : Dir (Unit {0})
unfolding destroy_loop
destroy d = destroy_loop d.files d
