-- ===== src/Tests/Directory.antt =====
-- Runs of the theorems on a directory and its clients.
use lucanthrope.Base.{
  str_eq_iff, ℕ, ◌≡◌, refl, false, List, [], ◌∷◌, length, some, none, arith, if◌then◌else◌, ◌==◌,
}
use lucanthrope.Exception.{ok, Safely}
use lucanthrope.Io.IndexOutput.{write}
use lucanthrope.Io.IndexInput.{read}
use lucanthrope.Storage.RamFile.{RamFile, Block, new_file}
use lucanthrope.Storage.FileMap.{dummy, file, find, put}
use lucanthrope.Storage.RamFileIndexOutput.{RamOutput, new_output, ram_output, close}
use lucanthrope.Storage.RamFileIndexInput.{RamInput, new_input, ram_input}
use lucanthrope.Storage.RamDirectory.{
  RamDirectory, new_directory, commit, create_output, rename, open_input, open_at, obtain_lock,
  close_output, delete_file, file_length, destroy,
}
use lucanthrope.Storage.RamDirectory.References.{IsSound}
use lucanthrope.Storage.RamDirectory.Worlds.{
  World, Step, Reachable, IsSafe, start, after_step, created, committed, locked, opened,
}
use lucanthrope.Storage.RamDirectory.Lifetime.{
  Reachable-IsSafe, calls_are_safe, close_output_lem, destroy_lem,
}
use lucanthrope.Storage.RamDirectory.RoundTrip.{create_write_open_read}

abbrev pub zeros : ℕ → Block
zeros n i = 0

abbrev two_bytes : List ℕ
two_bytes = 5 ∷ 6 ∷ []

create_write_open_read_example :
    (d₁ d₂ d₃ : RamDirectory) × (s : RamOutput) × (t u : RamInput) × (create_output "a"
        new_directory
      ≡ ok (new_output "a") d₁)
    × (write ⦃impl = ram_output zeros⦄ two_bytes (new_output "a") ≡ ok tt s)
    × (close_output s d₁ ≡ ok tt d₂)
    × (open_input "a" d₂ ≡ ok (new_directory.next, t) d₃)
    × (read ⦃impl = ram_input⦄ (length two_bytes) t ≡ ok two_bytes u)
unfolding new_directory find
create_write_open_read_example =
    create_write_open_read zeros "a" two_bytes new_directory refl (omega arith)

-- A file of one byte is written, an output stream is open for another, and a lock is held.
abbrev pub one_byte : RamFile
one_byte = record (new_file "a") { blocks = zeros 0 ∷ []; length = 1 }

abbrev pub world_a : World
world_a = record {
  dir = record { files = ("a", dummy) ∷ []; heap = λ p. none; next = 0 };
  readers = [];
  writers = "a" ∷ [];
}

abbrev pub world_b : World
world_b = record {
  dir = record {
    files = ("a", file 0) ∷ [];
    heap = λ q. if 0 == q then some (record one_byte { refs = 1 }) else none;
    next = 1;
  };
  readers = [];
  writers = [];
}

abbrev pub world_c : World
world_c = record world_b {
  dir = record (world_b.dir) { files = ("a", file 0) ∷ ("b", dummy) ∷ [] };
  writers = "b" ∷ [];
}

abbrev pub world_d : World
world_d = record world_c {
  dir = record (world_c.dir) { files = ("a", file 0) ∷ ("b", dummy) ∷ ("lock", dummy) ∷ [] };
  writers = "lock" ∷ "b" ∷ [];
}

abbrev pub world_e : World
world_e = record world_d {
  dir = record (world_d.dir) {
    heap = λ q. if 0 == q then some (record one_byte { refs = 2 }) else world_b.dir.heap q;
  };
  readers = 0 ∷ [];
}

world_a-Reachable : Reachable world_a
unfolding create_output new_directory find put
world_a-Reachable = after_step start (created _ "a" (new_output "a") world_a.dir refl)

world_b-Reachable : Reachable world_b
unfolding commit find put
world_b-Reachable =
    after_step world_a-Reachable (committed world_a "a" [] [] one_byte world_b.dir refl refl)

world_d-Reachable : Reachable world_d
unfolding create_output obtain_lock find put
world_d-Reachable =
    after_step
      (after_step world_b-Reachable (created world_b "b" (new_output "b") world_c.dir refl))
      (locked world_c "lock" world_d.dir refl)

pub world_e-Reachable : Reachable world_e
unfolding open_input open_at find
world_e-Reachable =
    after_step world_d-Reachable
      (opened world_d "a" 0 (new_input (record one_byte { refs = 1 })) world_e.dir refl)

Reachable-IsSafe_example : IsSafe world_e
Reachable-IsSafe_example = Reachable-IsSafe world_e-Reachable

calls_are_safe_example :
    Safely (create_output "a" world_e.dir) (λ s d. IsSound d (0 ∷ [])) (λ d. d ≡ world_e.dir)
    × Safely (obtain_lock "a" world_e.dir) (λ l d. IsSound d (0 ∷ [])) (λ d. d ≡ world_e.dir)
    × Safely (delete_file "a" world_e.dir) (λ u d. IsSound d (0 ∷ [])) (λ d. d ≡ world_e.dir)
    × Safely (open_input "a" world_e.dir) (λ s d. IsSound d (s.0 ∷ 0 ∷ [])) (λ d. d ≡ world_e.dir)
    × Safely
        (rename (λ m. false) "a" "c" world_e.dir)
        (λ u d. IsSound d (0 ∷ []))
        (λ d. d ≡ world_e.dir)
calls_are_safe_example = calls_are_safe world_e "a" "c" (λ m. false) world_e-Reachable refl

-- The open output stream for "b", to which nothing is written.
close_output_lem_example :
    (d : RamDirectory) × (close_output (new_output "b") world_e.dir ≡ ok tt d)
    × (file_length (close (new_output "b")).name d ≡ ok (close (new_output "b")).length d)
    × (find "a" d.files ≡ find "a" world_e.dir.files)
unfolding close new_output
close_output_lem_example =
    close_output_lem world_e (new_output "b") ("lock" ∷ []) [] "a" world_e-Reachable refl
      (ground (arith, str_eq_iff "b" "a"))

destroy_lem_example :
    (d : RamDirectory) × (destroy world_d.dir ≡ ok tt d) × ((p : ℕ) → d.heap p ≡ none)
destroy_lem_example = destroy_lem world_d world_d-Reachable refl

-- The clients open the file of "a" a second time.
abbrev world_f : World
world_f = record world_e {
  dir = record (world_e.dir) {
    heap = λ q. if 0 == q then some (record one_byte { refs = 3 }) else world_e.dir.heap q;
  };
  readers = 0 ∷ 0 ∷ [];
}

open_again : Step world_e world_f
unfolding open_input open_at find
open_again = opened world_e "a" 0 (new_input (record one_byte { refs = 2 })) world_f.dir refl
