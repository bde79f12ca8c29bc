-- ===== src/Storage/RamDirectory/Sessions/Whole.antt =====
-- Whole sessions.
use lucanthrope.Base.{◌≡◌, refl, Bool, false, List, [], ◌∷◌, Option, none, some}
use lucanthrope.Exception.{Outcome, ok, throws, aborts, undefined, diverges}
use lucanthrope.Storage.FileMap.{Files, find}
use lucanthrope.Storage.Directory.{Answer, done, flag, listed, size, stream, threw, refused, failed}
use lucanthrope.Storage.RamDirectory.{new_directory}
use lucanthrope.Storage.RamDirectory.Worlds.{World, start}
use lucanthrope.Storage.RamDirectory.Sessions.{
  Request, lists, creates, locks, deletes, opens, asks, measures, renames, finishes, releases,
  reads, closes, Session, expected, serve, replay, unless_failed, foretold, MayAsk, MayAskAll,
}
use lucanthrope.Storage.RamDirectory.Sessions.Looks.{Looks, Continues, Serves}
use lucanthrope.Storage.RamDirectory.Sessions.Names.{
  lists-Serves, creates-Serves, locks-Serves, deletes-Serves, asks-Serves, measures-Serves,
  renames-Serves,
}
use lucanthrope.Storage.RamDirectory.Sessions.Streams.{
  opens-Serves, finishes-Serves, releases-Serves, reads-Serves, closes-Serves,
}

abbrev pub new_world : World
new_world = record { dir = new_directory; readers = []; writers = [] }

-- Nothing is there.
abbrev pub new_session : Session
new_session = record { listing = λ k. none; snapshots = []; holds = [] }

new-Looks : Looks new_world new_session
unfolding new_directory find
new-Looks = record { reach = start; listed = refl; held = refl; seen = tt }

unless_failed-Continues :
    (y : Answer) (ys : List (Option Answer)) → Continues y → unless_failed y ys ≡ ys
unless_failed-Continues done ys c = refl
unless_failed-Continues (flag b) ys c = refl
unless_failed-Continues (listed f) ys c = refl
unless_failed-Continues (size n) ys c = refl
unless_failed-Continues (stream blocks len) ys c = refl
unless_failed-Continues (threw code) ys c = refl
unless_failed-Continues refused ys c = refl
unless_failed-Continues failed ys c = elim c [ ]

module _ (r : Files → Bool) (still : (m : Files) → r m ≡ false) where
  serve-Serves :
      (q : Request) (w : World) (a : Session)
      → Looks w a
      → MayAsk q a
      → Serves (serve r q w) (expected q a)
  serve-Serves lists w a i may = lists-Serves r w a i
  serve-Serves (creates k) w a i may = creates-Serves r w a i k
  serve-Serves (locks k) w a i may = locks-Serves r w a i k
  serve-Serves (deletes k) w a i may = deletes-Serves r w a i k
  serve-Serves (opens k) w a i may = opens-Serves r w a i k
  serve-Serves (asks k) w a i may = asks-Serves r w a i k
  serve-Serves (measures k) w a i may = measures-Serves r w a i k
  serve-Serves (renames src target) w a i may =
      renames-Serves r w a i src target (still w.dir.files) may
  serve-Serves (finishes n blocks len) w a i may = finishes-Serves r w a i n blocks len
  serve-Serves (releases n) w a i may = releases-Serves r w a i n
  serve-Serves (reads n) w a i may = reads-Serves r w a i n
  serve-Serves (closes n) w a i may = closes-Serves r w a i n

  next_request :
      (qs : List Request) (o : Outcome World Answer) (p : Answer × Session)
      → Serves o p
      → ((w : World) → Looks w (p.1) → replay r qs w ≡ foretold qs (p.1))
      → (elim o [
        | ok y v ↦ some y ∷ replay r qs v
        | throws e v ↦ none ∷ []
        | aborts ↦ some failed ∷ []
        | undefined ↦ none ∷ []
        | diverges ↦ none ∷ []
      ])
        ≡ some (p.0) ∷ unless_failed (p.0) (foretold qs (p.1))
  next_request qs (ok y w) (z, a) (same, c, i) k =
      rw (same, k w i, unless_failed-Continues z (foretold qs a) c) refl
  next_request qs (throws e w) p h k = elim h [ ]
  next_request qs aborts (z, a) h k = rw (← h) refl
  next_request qs undefined p h k = elim h [ ]
  next_request qs diverges p h k = elim h [ ]

  replay_lem :
      (qs : List Request) (w : World) (a : Session)
      → Looks w a
      → MayAskAll qs a
      → replay r qs w ≡ foretold qs a
  unfolding replay foretold
  replay_lem [] w a i may = refl
  replay_lem (q ∷ qs) w a i (may, more) =
      next_request qs (serve r q w) (expected q a) (serve-Serves q w a i may)
        (λ v j. replay_lem qs v _ j more)

  -- Whatever its clients ask for, deleteSegment aside, if they rename finished files only and the
  -- container does not rehash then, a new directory gives the answers that the comments of the
  -- interface promise, up to the first failed assertion: the names are listed, the lengths are right,
  -- the exceptions are thrown and the locks granted as promised, an input stream has the bytes that
  -- its file had when it was opened, deletions and renamings notwithstanding, and nothing is ever
  -- undefined. In place of what is promised it fails an assertion, and the session ends, where an
  -- unfinished file is opened, for which the comments promise an exception, where an empty one is
  -- opened, for which they promise a stream, and where an unfinished one is deleted.
  pub sessions_refine :
      (qs : List Request)
      → MayAskAll qs new_session
      → replay r qs new_world ≡ foretold qs new_session
  sessions_refine qs = replay_lem qs new_world new_session new-Looks
