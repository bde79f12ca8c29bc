-- ===== src/Exception.antt =====
-- include/lucanthrope/common/Exception.h, and what a call of a C++ function can come to.
use lucanthrope.Base.{◌≡◌, refl, String, Bool, true, false, if◌then◌else◌}

-- `Exception::Code`.
pub data Code : Type 0 where
  file_already_exists_exception file_not_found_exception : Code
  io_error_exception index_corruption_exception : Code

-- `code_` and `msg_`; `code()` and `what()` read them.
pub record Exception : Type 0 where
  pub code : Code
  pub msg : String

-- A call returns, or throws, and the object is in the state that it was left in; or an `assert`
-- fails; or the behaviour is undefined; or a loop has used up its fuel.
pub data Outcome {ℓ} (S A : Type ℓ) : Type ℓ where
  ok : A → S → Outcome S A
  throws : Exception → S → Outcome S A
  aborts : Outcome S A
  undefined : Outcome S A
  diverges : Outcome S A

abbrev pub Action {ℓ} : Type ℓ → Type ℓ → Type ℓ
Action S A = S → Outcome S A

module _ {ℓ} {S A : Type ℓ} where
  abbrev pub pure : A → Action S A
  pure a s = ok a s

  abbrev pub throw : Code → String → Action S A
  throw c m s = throws (record { code = c; msg = m }) s

  abbrev pub undefined_behaviour : Action S A
  undefined_behaviour s = undefined

-- `assert(b)`; the build does not define `NDEBUG`.
abbrev pub assert : {S : Type 0} → Bool → Action S (Unit {0})
assert true s = ok tt s
assert false s = aborts

abbrev pub modify : {S : Type 0} → (S → S) → Action S (Unit {0})
modify f s = ok tt (f s)

module _ {ℓ} {S A B : Type ℓ} where
  abbrev pub continue : Outcome S A → (A → Action S B) → Outcome S B
  continue (ok a s) f = f a s
  continue (throws e s) f = throws e s
  continue aborts f = aborts
  continue undefined f = undefined
  continue diverges f = diverges

  infixl 5 ◌>>=◌ ◌>>◌
  abbrev pub ◌>>=◌ : Action S A → (A → Action S B) → Action S B
  ◌>>=◌ m f s = continue (m s) f

  abbrev pub ◌>>◌ : Action S A → Action S B → Action S B
  m >> k = m >>= λ _. k

-- The call returns, and what it returns and leaves behind has the property.
abbrev pub Returns {ℓ} : {S A : Type ℓ} → Outcome S A → (A → S → Type 0) → Type 0
Returns (ok a s) P = P a s
Returns (throws e s) P = ⊥
Returns aborts P = ⊥
Returns undefined P = ⊥
Returns diverges P = ⊥

-- The call throws with this code, and what it leaves behind has the property.
abbrev pub Throws {ℓ} : {S A : Type ℓ} → Outcome S A → Code → (S → Type 0) → Type 0
Throws (ok a s) c P = ⊥
Throws (throws e s) c P = (e.code ≡ c) × P s
Throws aborts c P = ⊥
Throws undefined c P = ⊥
Throws diverges c P = ⊥

-- The call does not run into undefined behaviour; what it returns and leaves behind has the first
-- property, and the second one holds of what it leaves behind when it throws.
abbrev pub Safely {ℓ} : {S A : Type ℓ} → Outcome S A → (A → S → Type 0) → (S → Type 0) → Type 0
Safely (ok a s) P Q = P a s
Safely (throws e s) P Q = Q s
Safely aborts P Q = Unit {0}
Safely undefined P Q = ⊥
Safely diverges P Q = ⊥

-- The call does not run out of fuel, and if it returns, what it returns and leaves behind has the
-- property.
abbrev pub Ends {ℓ} : {S A : Type ℓ} → Outcome S A → (A → S → Type 0) → Type 0
Ends (ok a s) P = P a s
Ends (throws e s) P = Unit {0}
Ends aborts P = Unit {0}
Ends undefined P = Unit {0}
Ends diverges P = ⊥

module _ {S A B : Type 0} (P : A → S → Type 0) (Q : B → S → Type 0) where
  pub Ends-continue :
      (o : Outcome S A) (f : A → Action S B)
      → Ends o P
      → ((a : A) (s : S) → P a s → Ends (f a s) Q)
      → Ends (continue o f) Q
  Ends-continue (ok a s) f h k = k a s h
  Ends-continue (throws e s) f h k = tt
  Ends-continue aborts f h k = tt
  Ends-continue undefined f h k = tt
  Ends-continue diverges f h k = h

module _ {S A : Type 0} (P : A → S → Type 0) where
  pub Ends-if :
      (b : Bool) (f g : Action S A) (s : S)
      → (b ≡ true → Ends (f s) P)
      → (b ≡ false → Ends (g s) P)
      → Ends ((if b then f else g) s) P
  Ends-if true f g s yes_ no_ = yes_ refl
  Ends-if false f g s yes_ no_ = no_ refl

-- What the call returns, if it does, and leaves behind has the property.
abbrev pub Gives {ℓ} : {S A : Type ℓ} → Outcome S A → (A → S → Type 0) → Type 0
Gives (ok a s) P = P a s
Gives (throws e s) P = Unit {0}
Gives aborts P = Unit {0}
Gives undefined P = Unit {0}
Gives diverges P = Unit {0}

module _ {S A B : Type 0} (P : A → S → Type 0) (Q : B → S → Type 0) where
  pub Gives-continue :
      (o : Outcome S A) (f : A → Action S B)
      → Gives o P
      → ((a : A) (s : S) → P a s → Gives (f a s) Q)
      → Gives (continue o f) Q
  Gives-continue (ok a s) f h k = k a s h
  Gives-continue (throws e s) f h k = tt
  Gives-continue aborts f h k = tt
  Gives-continue undefined f h k = tt
  Gives-continue diverges f h k = tt

module _ {S A : Type 0} (P : A → S → Type 0) where
  pub Gives-if :
      (b : Bool) (f g : Action S A) (s : S)
      → (b ≡ true → Gives (f s) P)
      → (b ≡ false → Gives (g s) P)
      → Gives ((if b then f else g) s) P
  Gives-if true f g s yes_ no_ = yes_ refl
  Gives-if false f g s yes_ no_ = no_ refl
