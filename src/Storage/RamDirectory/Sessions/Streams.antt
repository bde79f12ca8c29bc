-- ===== src/Storage/RamDirectory/Sessions/Streams.antt =====
-- The requests that are about streams and locks.
use lucanthrope.Base.{
  ℕ, suc, refl, ap, Bool, String, List, get_elem?, take, drop, Option-cases, inl, inr, arith,
}
use lucanthrope.Storage.RamFile.{RamFile, Block}
use lucanthrope.Storage.FileMap.{Files}
use lucanthrope.Storage.Directory.{Call, promised, departs, answered}
use lucanthrope.Storage.RamDirectory
use lucanthrope.Storage.RamDirectory.{RamDirectory, new_directory}
use lucanthrope.Storage.RamDirectory.Worlds.{World, committed, released, opened, closed}
use lucanthrope.Storage.RamDirectory.Worlds.Contents.{opened_bytes}
use lucanthrope.Storage.RamDirectory.Refinement.{perform}
use lucanthrope.Storage.RamDirectory.Sessions.{
  opens, finishes, releases, reads, closes, Session, remove, file_of, taken, expected, serve,
}
use lucanthrope.Storage.RamDirectory.Sessions.Snapshots.{
  get_elem?-Seen, missing-Seen, remove-Seen, split-get_elem?,
}
use lucanthrope.Storage.RamDirectory.Sessions.Looks.{
  Looks, Serves, reply_lem, Step-Looks, same-Looks, agrees,
}

module _ (r : Files → Bool) (w : World) (a : Session) (i : Looks w a) where
  pub opens-Serves : (k : String) → Serves (serve r (opens k) w) (expected (opens k) a)
  unfolding serve expected perform RamDirectory.open_input RamDirectory.open_at
  opens-Serves k =
      reply_lem (RamDirectory.open_input k w.dir) _ _ w _
        (λ y l. record a { listing = l; snapshots = taken y a.snapshots })
        (agrees r w a i (Call.open_input k) tt) (λ s. tt)
        (λ s d e looks.
          let (f, here, blocks, len) = opened_bytes k (s.0) (s.1) w.dir d e in
          Step-Looks a _ (opened w k (s.0) (s.1) d e) i (rw (here, blocks, len) refl, i.seen) looks
            i.held)
        (λ x d e looks. same-Looks w a _ d i (ground (arith, e)) looks)

  pub finishes-Serves :
      (n : ℕ) (blocks : List Block) (len : ℕ)
      → Serves (serve r (finishes n blocks len) w) (expected (finishes n blocks len) a)
  unfolding serve expected perform RamDirectory.commit
  finishes-Serves n blocks len = elim (Option-cases (get_elem? w.writers n)) [
    | inl missing ↦
        let missing' = rw (i.held) at missing in
        rw (serve, expected, missing, missing') (refl, tt, i)
    | inr (k, there) ↦
        let there' = rw (i.held) at there in
        let f : RamFile = file_of k blocks len in
        rw (serve, expected, there, there')
          (reply_lem (RamDirectory.commit k f w.dir) _ _ w _
            (λ y l. record a { listing = l; holds = remove n a.holds })
            (agrees r w a i (Call.close_output f) tt) (λ u. tt)
            (λ u d e looks.
              Step-Looks a _
                (committed w k (take n w.writers) (drop (suc n) w.writers) f d
                  (split-get_elem? w.writers n k there) e)
                i i.seen looks (ap (remove n) i.held))
            (λ x d e looks. absurd (ground (arith, e))))
  ]

  pub releases-Serves : (n : ℕ) → Serves (serve r (releases n) w) (expected (releases n) a)
  unfolding serve expected perform RamDirectory.release_lock
  releases-Serves n = elim (Option-cases (get_elem? w.writers n)) [
    | inl missing ↦
        let missing' = rw (i.held) at missing in
        rw (serve, expected, missing, missing') (refl, tt, i)
    | inr (k, there) ↦
        let there' = rw (i.held) at there in
        rw (serve, expected, there, there')
          (reply_lem (RamDirectory.release_lock k w.dir) _ _ w _
            (λ y l. record a { listing = l; holds = remove n a.holds })
            (agrees r w a i (Call.close_lock k) tt) (λ u. tt)
            (λ u d e looks.
              Step-Looks a _
                (released w k (take n w.writers) (drop (suc n) w.writers) d
                  (split-get_elem? w.writers n k there) e)
                i i.seen looks (ap (remove n) i.held))
            (λ x d e looks. absurd (ground (arith, e))))
  ]

  pub reads-Serves : (n : ℕ) → Serves (serve r (reads n) w) (expected (reads n) a)
  unfolding serve expected
  reads-Serves n = elim (Option-cases (get_elem? w.readers n)) [
    | inl missing ↦
        let (missing', _) = missing-Seen w.dir.heap w.readers a.snapshots n i.seen missing in
        rw (serve, expected, missing, missing') (refl, tt, i)
    | inr (p, there) ↦
        let (blocks, len, there', same) =
          get_elem?-Seen w.dir.heap w.readers a.snapshots n p i.seen there in
        elim (Option-cases (w.dir.heap p)) [
          | inl gone ↦ absurd (ground (arith, gone, same))
          | inr (f, here) ↦
              rw (serve, expected, there, there', here) (ground (arith, here, same), tt, i)
        ]
  ]

  pub closes-Serves : (n : ℕ) → Serves (serve r (closes n) w) (expected (closes n) a)
  unfolding serve expected perform answered promised departs RamDirectory.unref_reader
      RamDirectory.drop_ref
  closes-Serves n = elim (Option-cases (get_elem? w.readers n)) [
    | inl missing ↦
        let (_, same) = missing-Seen w.dir.heap w.readers a.snapshots n i.seen missing in
        rw (serve, expected, missing, same) (refl, tt, i)
    | inr (p, there) ↦
        let split = split-get_elem? w.readers n p there in
        let seen = remove-Seen w.dir.heap w.readers a.snapshots n i.seen in
        rw (serve, expected, there)
          (reply_lem (RamDirectory.unref_reader p w.dir) _ _ w _
            (λ y l. record a { listing = l; snapshots = remove n a.snapshots })
            (agrees r w a i (Call.close_input p) (take n w.readers, drop (suc n) w.readers, split))
            (λ u. tt)
            (λ u d e looks.
              Step-Looks a _ (closed w p (take n w.readers) (drop (suc n) w.readers) d split e) i
                seen looks i.held)
            (λ x d e looks. absurd (ground (arith, e))))
  ]
