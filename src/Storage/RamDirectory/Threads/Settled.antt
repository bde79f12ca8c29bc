-- ===== src/Storage/RamDirectory/Threads/Settled.antt =====
-- A call under the mutex does the same to the directory in which the doomed files are gone.
use mathlib.Core.Path.{fun_ext}
use lucanthrope.Base.{
  ℕ, ◌+◌, ◌≡◌, ap, ◌∙◌, Bool, String, List, Option, some, ◌==◌, Option-cases, Bool-cases, inl, inr,
  arith,
}
use lucanthrope.Exception.{Outcome, ok}
use lucanthrope.Storage.RamFile.{RamFile}
use lucanthrope.Storage.FileMap.{Files, dummy, file, find, put}
use lucanthrope.Storage.RamFileIndexOutput.{RamOutput}
use lucanthrope.Storage.RamFileIndexInput.{RamInput, new_input}
use lucanthrope.Storage.RamDirectory.{
  RamDirectory, create_output, obtain_lock, release_lock, commit, rename, open_input, open_at,
  set_heap,
}
use lucanthrope.Storage.RamDirectory.References.{occurrences}
use lucanthrope.Storage.RamDirectory.Threads.{settled_dir}

abbrev on_state {ℓ} : {S A : Type ℓ} → (S → S) → Outcome S A → Outcome S A
on_state g (Outcome.ok a s) = ok a (g s)
on_state g (Outcome.throws e s) = Outcome.throws e (g s)
on_state g Outcome.aborts = Outcome.aborts
on_state g Outcome.undefined = Outcome.undefined
on_state g Outcome.diverges = Outcome.diverges

-- A file that is not doomed is changed.
pub set_heap-settled :
    (z : List ℕ) (p : ℕ) (v : Option RamFile) (d : RamDirectory)
    → occurrences p z ≡ 0
    → set_heap p v (settled_dir z d) ≡ settled_dir z (set_heap p v d)
set_heap-settled z p v d unused =
    let heaps : (set_heap p v (settled_dir z d)).heap ≡ (settled_dir z (set_heap p v d)).heap =
      fun_ext λ q. ground (arith, unused) in
    ap (λ (h : ℕ → Option RamFile). record d { heap = h }) heaps

module _ (z : List ℕ) (d d' : RamDirectory) where
  pub create_output-settled :
      (k : String) (s : RamOutput)
      → create_output k d ≡ ok s d'
      → create_output k (settled_dir z d) ≡ ok s (settled_dir z d')
  unfolding create_output
  create_output-settled k s e = elim (Option-cases (find k d.files)) [
    | inl new ↦
        rw (create_output, new) (ap (on_state (settled_dir z)) (rw (create_output, new) at e))
    | inr (slot, old) ↦ absurd (ground (arith, e, old))
  ]

  pub obtain_lock-settled :
      (k : String)
      → obtain_lock k d ≡ ok (some k) d'
      → obtain_lock k (settled_dir z d) ≡ ok (some k) (settled_dir z d')
  unfolding obtain_lock
  obtain_lock-settled k e = elim (Option-cases (find k d.files)) [
    | inl new ↦ rw (obtain_lock, new) (ap (on_state (settled_dir z)) (rw (obtain_lock, new) at e))
    | inr (slot, old) ↦ absurd (ground (arith, e, old))
  ]

  pub release_lock-settled :
      (k : String)
      → release_lock k d ≡ ok tt d'
      → release_lock k (settled_dir z d) ≡ ok tt (settled_dir z d')
  unfolding release_lock
  release_lock-settled k e = elim (Option-cases (find k d.files)) [
    | inl new ↦ rw (release_lock, new) (ap (on_state (settled_dir z)) (rw (release_lock, new) at e))
    | inr (dummy, old) ↦
        rw (release_lock, old) (ap (on_state (settled_dir z)) (rw (release_lock, old) at e))
    | inr (file p, old) ↦ absurd (ground (arith, e, old))
  ]

  pub rename-settled :
      (r : Files → Bool) (src target : String)
      → rename r src target d ≡ ok tt d'
      → rename r src target (settled_dir z d) ≡ ok tt (settled_dir z d')
  unfolding rename
  rename-settled r src target e = elim (Option-cases (find src d.files)) [
    | inl new ↦ absurd (ground (arith, e, new))
    | inr (slot, old) ↦ elim (Option-cases (find target d.files)) [
      | inr (other, taken) ↦ absurd (ground (arith, e, old, taken))
      | inl free ↦ elim (Bool-cases (r d.files)) [
        | inl moves ↦ absurd (ground (arith, e, old, free, moves))
        | inr still ↦
            rw (rename, old, free, still)
              (ap (on_state (settled_dir z)) (rw (rename, old, free, still) at e))
      ]
    ]
  ]

  pub commit-settled :
      (k : String) (f : RamFile)
      → occurrences d.next z ≡ 0
      → commit k f d ≡ ok tt d'
      → commit k f (settled_dir z d) ≡ ok tt (settled_dir z d')
  unfolding commit
  commit-settled k f unused e = elim (Option-cases (find k d.files)) [
    | inl new ↦ absurd (ground (arith, e, new))
    | inr (file p, old) ↦ absurd (ground (arith, e, old))
    | inr (dummy, old) ↦
        let more : RamDirectory → RamDirectory =
          λ t. record t { files = put k (file d.next) d.files; next = d.next + 1 } in
        let kept = set_heap-settled z d.next (some (record f { refs = 1 })) d unused in
        rw (commit, old)
          (ap (λ (t : RamDirectory). Outcome.ok tt (more t)) kept
            ∙ ap (on_state (settled_dir z)) (rw (commit, old) at e))
  ]

  pub open_input-settled :
      (k : String) (p : ℕ) (s : RamInput)
      → occurrences p z ≡ 0
      → open_input k d ≡ ok (p, s) d'
      → open_input k (settled_dir z d) ≡ ok (p, s) (settled_dir z d')
  unfolding open_input open_at
  open_input-settled k p s unused e = elim (Option-cases (find k d.files)) [
    | inl new ↦ absurd (ground (arith, e, new))
    | inr (dummy, old) ↦ absurd (ground (arith, e, old))
    | inr (file q, old) ↦ elim (Option-cases (d.heap q)) [
      | inl gone ↦ absurd (ground (arith, e, old, gone))
      | inr (f, here) ↦ elim (Bool-cases (f.length == 0)) [
        | inl empty ↦ absurd (ground (arith, e, old, here, empty))
        | inr some_bytes ↦
            let same : q ≡ p = ground (arith, e, old, here, some_bytes) in
            let free : occurrences q z ≡ 0 = rw same unused in
            let still : (settled_dir z d).heap q ≡ some f = ground (arith, free, here) in
            let kept = set_heap-settled z q (some (record f { refs = f.refs + 1 })) d free in
            let opened : ok (q, new_input f) (set_heap q (some (record f { refs = f.refs + 1 })) d)
                ≡ ok (p, s) d' =
              rw (open_input, old, here, open_at, some_bytes) at e in
            rw (open_input, old, still, open_at, some_bytes)
              (ap (λ (t : RamDirectory). ok (q, new_input f) t) kept
                ∙ ap (on_state (settled_dir z)) opened)
      ]
    ]
  ]
