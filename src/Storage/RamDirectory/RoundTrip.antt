-- ===== src/Storage/RamDirectory/RoundTrip.antt =====
-- A file from createOutput to its reader: the directory and both of its streams together.
use mathlib.Core.Path.{subst}
use lucanthrope.Base.{
  ℕ, ◌+◌, ◌<◌, ◌≡◌, sym, String, List, [], ◌∷◌, none, some, ◌==◌, length, arith, str_eq_iff,
  if◌then◌else◌, false,
}
use lucanthrope.Exception.{ok}
use lucanthrope.Io.IndexOutput.{write}
use lucanthrope.Io.IndexInput.{read}
use lucanthrope.Io.IndexInput.Reads.{read_prefix}
use lucanthrope.Storage.RamFile.{RamFile, Block}
use lucanthrope.Storage.FileMap.{dummy, file, find, put}
use lucanthrope.Storage.FileMap.Laws.{find-put}
use lucanthrope.Storage.RamFileIndexOutput.{RamOutput, new_output, ram_output, close}
use lucanthrope.Storage.RamFileIndexInput.{RamInput, new_input, ram_input}
use lucanthrope.Storage.RamFileIndexInput.Memory.{Holds}
use lucanthrope.Storage.RamFileIndexInput.Promises.{ram_input-IsSource}
use lucanthrope.Storage.RamDirectory.{
  RamDirectory, set_files, commit, create_output, close_output, open_input, open_at,
}
use lucanthrope.Storage.WriteRead.{write_new_file, Ahead-new_input}

Holds-refs :
    (f : RamFile) (n p : ℕ) (bs : List ℕ) → Holds f p bs → Holds (record f { refs = n }) p bs
Holds-refs f n p [] h = tt
Holds-refs f n p (b ∷ bs) h = (h.0, Holds-refs f n (p + 1) bs h.1)

-- The directory with the file committed.
abbrev with_file : String → RamFile → RamDirectory → RamDirectory
with_file name f d = record d {
  files = put name (file d.next) (put name dummy d.files);
  heap = λ q. if d.next == q then some (record f { refs = 1 }) else d.heap q;
  next = d.next + 1;
}

commit_new :
    (name : String) (f : RamFile) (d : RamDirectory)
    → commit name f (set_files (put name dummy d.files) d) ≡ ok tt (with_file name f d)
unfolding commit
commit_new name f d = ground (arith, find-put name name dummy d.files, str_eq_iff name name)

open_new :
    (name : String) (f : RamFile) (d : RamDirectory)
    → 0 < f.length
    → (d' : RamDirectory) × (open_input name (with_file name f d)
        ≡ ok (d.next, new_input (record f { refs = 1 })) d')
unfolding open_input open_at
open_new name f d some_bytes =
    let there : find name (put name (file d.next) (put name dummy d.files)) ≡ some (file d.next) =
      ground
        (arith, find-put name name (file d.next) (put name dummy d.files), str_eq_iff name name) in
    (
      record (with_file name f d) {
        heap =
            λ q. if d.next == q then some (record f { refs = 2 }) else (with_file name f d).heap q;
      },
      ground (arith, there),
    )

-- Bytes that are written to a file with a new name, whose stream is then destroyed, are what a
-- stream that openInput returns for this name reads, if there is one byte at least.
pub create_write_open_read :
    (contents : ℕ → Block) (name : String) (bs : List ℕ) (d : RamDirectory)
    → find name d.files ≡ none
    → 0 < length bs
    → (d₁ d₂ d₃ : RamDirectory) × (s : RamOutput) × (t u : RamInput) × (create_output name d
        ≡ ok (new_output name) d₁)
      × (write ⦃impl = ram_output contents⦄ bs (new_output name) ≡ ok tt s)
      × (close_output s d₁ ≡ ok tt d₂)
      × (open_input name d₂ ≡ ok (d.next, t) d₃)
      × (read ⦃impl = ram_input⦄ (length bs) t ≡ ok bs u)
unfolding create_output close_output ram_input-IsSource
create_write_open_read contents name bs d new some_bytes =
    let (s, e, named, len, h) = write_new_file contents name bs in
    let f : RamFile = record (close s) { refs = 1 } in
    let (d₃, opened) = open_new name (close s) d (omega arith) in
    let (u, got, _) =
      read_prefix (ram_input-IsSource f (length bs)) bs false (new_input f) []
        (Ahead-new_input f bs len some_bytes (Holds-refs (close s) 1 0 bs h)) in
    (
      set_files (put name dummy d.files) d,
      with_file name (close s) d,
      d₃,
      s,
      new_input f,
      u,
      ground (arith, new),
      e,
      subst
          (λ n.
            commit n (close s) (set_files (put name dummy d.files) d)
            ≡ ok tt (with_file name (close s) d))
          (sym named) (commit_new name (close s) d),
      opened,
      got,
    )
