-- ===== src/Storage/RamDirectory/Sessions/Names.antt =====
-- The requests that are about a name.
use lucanthrope.Base.{
  ℕ, ◌≡◌, ◌≢◌, sym, ap, ◌∙◌, Bool, true, false, String, ◌∷◌, Option, none, some, Option-cases, inl,
  inr, arith,
}
use lucanthrope.Exception.{ok}
use lucanthrope.Storage.FileMap.{Files, dummy, file, find}
use lucanthrope.Storage.Directory.{Call, unfinished, Listing, flag, listed}
use lucanthrope.Storage.RamDirectory
use lucanthrope.Storage.RamDirectory.{RamDirectory, new_directory}
use lucanthrope.Storage.RamDirectory.Worlds.{World, held, created, locked, renamed, deleted}
use lucanthrope.Storage.RamDirectory.Refinement.{perform, view, entry_of}
use lucanthrope.Storage.RamDirectory.Sessions.{
  lists, creates, locks, deletes, asks, measures, renames, Session, granted, expected, serve,
}
use lucanthrope.Storage.RamDirectory.Sessions.Looks.{
  Looks, Serves, reply_lem, Step-Looks, same-Looks, agrees,
}

module _ (r : Files → Bool) (w : World) (a : Session) (i : Looks w a) where
  pub lists-Serves : Serves (serve r lists w) (expected lists a)
  unfolding serve expected perform RamDirectory.list_all
  lists-Serves =
      reply_lem (RamDirectory.list_all w.dir) (λ ns. listed (λ k. held k ns)) _ w _
        (λ y l. record a { listing = l }) (agrees r w a i Call.list_all tt) (λ ns. tt)
        (λ ns d e looks. same-Looks w a _ d i (ground (arith, e)) looks)
        (λ x d e looks. same-Looks w a _ d i (ground (arith, e)) looks)

  pub creates-Serves : (k : String) → Serves (serve r (creates k) w) (expected (creates k) a)
  unfolding serve expected perform RamDirectory.create_output
  creates-Serves k =
      reply_lem (RamDirectory.create_output k w.dir) _ _ w _
        (λ y l. record a { listing = l; holds = granted y k a.holds })
        (agrees r w a i (Call.create_output k) tt) (λ s. tt)
        (λ s d e looks.
          Step-Looks a _ (created w k s d e) i i.seen looks (ap (λ ws. k ∷ ws) i.held))
        (λ x d e looks. same-Looks w a _ d i (ground (arith, e)) looks)

  locked-Looks :
      (k : String) (l : Option String) (d : RamDirectory) (m : Listing)
      → RamDirectory.obtain_lock k w.dir ≡ ok l d
      → view d ≡ m
      → Looks
          (record w { dir = d; writers = elim l [ none ↦ w.writers | some j ↦ j ∷ w.writers ] })
          (record a {
            listing = m;
            holds = granted (flag (elim l [ none ↦ false | some j ↦ true ])) k a.holds;
          })
  unfolding RamDirectory.obtain_lock
  locked-Looks k none d m e looks = same-Looks w a m d i (ground (arith, e)) looks
  locked-Looks k (some j) d m e looks =
      let same : j ≡ k = ground (arith, e) in
      rw same
        (Step-Looks a _ (locked w k d (rw same at e)) i i.seen looks (ap (λ ws. k ∷ ws) i.held))

  pub locks-Serves : (k : String) → Serves (serve r (locks k) w) (expected (locks k) a)
  unfolding serve expected perform RamDirectory.obtain_lock
  locks-Serves k =
      reply_lem (RamDirectory.obtain_lock k w.dir) _ _ w _
        (λ y l. record a { listing = l; holds = granted y k a.holds })
        (agrees r w a i (Call.obtain_lock k) tt) (λ l. elim l [ none ↦ tt | some j ↦ tt ])
        (λ l d e looks. locked-Looks k l d _ e looks)
        (λ x d e looks. same-Looks w a _ d i (ground (arith, e)) looks)

  pub deletes-Serves : (k : String) → Serves (serve r (deletes k) w) (expected (deletes k) a)
  unfolding serve expected perform RamDirectory.delete_file RamDirectory.drop_ref
  deletes-Serves k =
      reply_lem (RamDirectory.delete_file k w.dir) _ _ w _ (λ y l. record a { listing = l })
        (agrees r w a i (Call.delete_file k) tt) (λ u. tt)
        (λ u d e looks. Step-Looks a _ (deleted w k d e) i i.seen looks i.held)
        (λ x d e looks. same-Looks w a _ d i (ground (arith, e)) looks)

  pub asks-Serves : (k : String) → Serves (serve r (asks k) w) (expected (asks k) a)
  unfolding serve expected perform RamDirectory.file_exists
  asks-Serves k =
      reply_lem (RamDirectory.file_exists k w.dir) _ _ w _ (λ y l. record a { listing = l })
        (agrees r w a i (Call.file_exists k) tt) (λ b. tt)
        (λ b d e looks. same-Looks w a _ d i (ground (arith, e)) looks)
        (λ x d e looks. same-Looks w a _ d i (ground (arith, e)) looks)

  pub measures-Serves : (k : String) → Serves (serve r (measures k) w) (expected (measures k) a)
  unfolding serve expected perform RamDirectory.file_length RamDirectory.length_at
  measures-Serves k =
      reply_lem (RamDirectory.file_length k w.dir) _ _ w _ (λ y l. record a { listing = l })
        (agrees r w a i (Call.file_length k) tt) (λ b. tt)
        (λ b d e looks. same-Looks w a _ d i (ground (arith, e)) looks)
        (λ x d e looks. same-Looks w a _ d i (ground (arith, e)) looks)

  renamed_file :
      (src target : String) (d : RamDirectory)
      → RamDirectory.rename r src target w.dir ≡ ok tt d
      → a.listing src ≢ some unfinished
      → (p : ℕ) × (find src w.dir.files ≡ some (file p))
  unfolding RamDirectory.rename
  renamed_file src target d e may = elim (Option-cases (find src w.dir.files)) [
    | inl new ↦ absurd (ground (arith, e, new))
    | inr (dummy, old) ↦
        absurd (may (ap (λ l. l src) (sym i.listed) ∙ ap (entry_of w.dir.heap) old))
    | inr (file p, old) ↦ (p, old)
  ]

  pub renames-Serves :
      (src target : String)
      → r w.dir.files ≡ false
      → a.listing src ≢ some unfinished
      → Serves (serve r (renames src target) w) (expected (renames src target) a)
  unfolding serve expected perform RamDirectory.rename
  renames-Serves src target still may =
      reply_lem (RamDirectory.rename r src target w.dir) _ _ w _ (λ y l. record a { listing = l })
        (agrees r w a i (Call.rename src target) still) (λ u. tt)
        (λ u d e looks.
          let (p, old) = renamed_file src target d e may in
          Step-Looks a _ (renamed w src target p r d old still e) i i.seen looks i.held)
        (λ x d e looks. same-Looks w a _ d i (ground (arith, e)) looks)
