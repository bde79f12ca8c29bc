-- ===== src/Storage/RamDirectory/Sessions/Looks.antt =====
-- A world as its clients see it, and what one call does to that.
use mathlib.Core.Path.{subst}
use lucanthrope.Base.{◌≡◌, refl, sym, Bool, arith}
use lucanthrope.Exception.{
  Exception, Outcome, ok, throws, aborts, undefined, diverges, continue, pure,
}
use lucanthrope.Storage.FileMap.{Files}
use lucanthrope.Storage.Directory.{Call, Listing, Answer, threw, failed, answered}
use lucanthrope.Storage.RamDirectory.{RamDirectory}
use lucanthrope.Storage.RamDirectory.Worlds.{World, Step, Reachable, after_step}
use lucanthrope.Storage.RamDirectory.Lifetime.{Reachable-IsSafe}
use lucanthrope.Storage.RamDirectory.Refinement.{perform, view, Agrees, Allowed}
use lucanthrope.Storage.RamDirectory.Refinement.Calls.{calls_refine}
use lucanthrope.Storage.RamDirectory.Sessions.{Session, reply}
use lucanthrope.Storage.RamDirectory.Sessions.Snapshots.{Seen, Step-Seen}

-- The world looks to its clients as the session says.
pub record Looks (w : World) (a : Session) : Type 0 where
  pub reach : Reachable w
  pub listed : view w.dir ≡ a.listing
  pub held : w.writers ≡ a.holds
  pub seen : Seen w.dir.heap w.readers a.snapshots

abbrev pub Continues : Answer → Type 0
Continues failed = ⊥
Continues other = Unit {0}

-- The answer is the expected one, and the world then looks as expected.
abbrev pub Serves : Outcome World Answer → Answer × Session → Type 0
Serves (ok y w) (z, a) = (y ≡ z) × Continues z × Looks w a
Serves (throws e w) (z, a) = ⊥
Serves aborts (z, a) = failed ≡ z
Serves undefined (z, a) = ⊥
Serves diverges (z, a) = ⊥

pub reply_lem :
    {A : Type 0} (o : Outcome RamDirectory A) (f : A → Answer) (g : A → RamDirectory → World)
    (w : World) (p : Answer × Listing) (b : Answer → Listing → Session)
    → Agrees (continue o (λ x. pure (f x))) p
    → ((x : A) → Continues (f x))
    → ((x : A) (d : RamDirectory) → o ≡ ok x d → view d ≡ p.1 → Looks (g x d) (b (f x) (p.1)))
    → ((e : Exception) (d : RamDirectory)
        → o ≡ throws e d
        → view d ≡ p.1
        → Looks (record w { dir = d }) (b (threw (e.code)) (p.1)))
    → Serves (reply o f g w) (p.0, b (p.0) (p.1))
reply_lem (ok x d) f g w (y, l) b (same, looks) c k j =
    (same, subst Continues same (c x), subst (λ z. Looks (g x d) (b z l)) same (k x d refl looks))
reply_lem (throws e d) f g w (y, l) b (same, looks) c k j = (
  same,
  subst Continues same tt,
  subst (λ z. Looks (record w { dir = d }) (b z l)) same (j e d refl looks),
)
reply_lem aborts f g w p b h c k j = h
reply_lem undefined f g w p b h c k j = elim h [ ]
reply_lem diverges f g w p b h c k j = elim h [ ]

pub Step-Looks :
    {w w' : World} (a b : Session)
    → Step w w'
    → Looks w a
    → Seen w.dir.heap w'.readers b.snapshots
    → view w'.dir ≡ b.listing
    → w'.writers ≡ b.holds
    → Looks w' b
Step-Looks {w} {w'} a b step i seen looks held =
    let r = after_step i.reach step in
    record {
      reach = r;
      listed = looks;
      held = held;
      seen =
          Step-Seen w'.readers b.snapshots step (Reachable-IsSafe i.reach) (Reachable-IsSafe r)
            (λ p. omega arith) seen;
    }

-- The directory is as it was.
pub same-Looks :
    (w : World) (a : Session) (l : Listing) (d : RamDirectory)
    → Looks w a
    → d ≡ w.dir
    → view d ≡ l
    → Looks (record w { dir = d }) (record a { listing = l })
same-Looks w a l d i same looks = record {
  reach = subst (λ d. Reachable (record w { dir = d })) (sym same) i.reach;
  listed = looks;
  held = i.held;
  seen = subst (λ (d : RamDirectory). Seen d.heap w.readers a.snapshots) (sym same) i.seen;
}

module _ (r : Files → Bool) (w : World) (a : Session) (i : Looks w a) where
  pub agrees : (c : Call) → Allowed r c w → Agrees (perform r c w.dir) (answered c a.listing)
  agrees c h =
      subst (λ l. Agrees (perform r c w.dir) (answered c l)) i.listed (calls_refine r c w i.reach h)
