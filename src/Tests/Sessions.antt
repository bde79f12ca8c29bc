-- ===== src/Tests/Sessions.antt =====
-- A run of the theorem on a session of a directory's clients.
use lucanthrope.Base.{none, ◌≡◌, refl, true, false, List, [], ◌∷◌, some}
use lucanthrope.Exception.{file_not_found_exception}
use lucanthrope.Storage.Directory.{
  unfinished, change, once, done, flag, listed, stream, threw, failed, promised, departs, answered,
}
use lucanthrope.Storage.RamDirectory.Sessions.{
  Request, lists, creates, locks, deletes, opens, asks, renames, finishes, releases, reads,
  foretold, expected, replay, MayAskAll,
}
use lucanthrope.Storage.RamDirectory.Sessions.Whole.{new_world, new_session, sessions_refine}
use lucanthrope.Tests.Directory.{zeros}

-- A file is written, and renamed and deleted under a reader; then a file that is not finished is
-- opened.
abbrev busy : List Request
busy =
    locks "l"
    ∷ creates "a"
    ∷ lists
    ∷ finishes 0 (zeros 0 ∷ []) 3
    ∷ opens "a"
    ∷ renames "a" "b"
    ∷ deletes "b"
    ∷ opens "b"
    ∷ reads 0
    ∷ releases 0
    ∷ asks "l"
    ∷ creates "a"
    ∷ opens "a"
    ∷ asks "a"
    ∷ []

may_ask : MayAskAll busy new_session
unfolding expected answered promised departs
may_ask =
    (tt, (tt, (tt, (tt, (tt, (λ e. cc (e), (tt, (tt, (tt, (tt, (tt, (tt, (tt, (tt, tt))))))))))))))

sessions_refine_example :
    replay (λ m. false) busy new_world
    ≡ some (flag true)
      ∷ some done
      ∷ some (
          listed
            (λ k. once (change (change (λ j. none) "l" (some unfinished)) "a" (some unfinished) k)))
      ∷ some done
      ∷ some (stream (zeros 0 ∷ []) 3)
      ∷ some done
      ∷ some done
      ∷ some (threw file_not_found_exception)
      ∷ some (stream (zeros 0 ∷ []) 3)
      ∷ some done
      ∷ some (flag false)
      ∷ some done
      ∷ some failed
      ∷ []
unfolding foretold expected answered promised departs
sessions_refine_example = sessions_refine (λ m. false) (λ m. refl) busy may_ask
