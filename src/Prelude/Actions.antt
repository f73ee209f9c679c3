-- ===== src/Prelude/Actions.antt =====
-- A method of an object that changes a state and may raise: what it wrote before it raised stays.
use mathlib.Core.Path.{◌≡◌, refl}
use mathlib.Core.Bool.{Bool, true, false}
use native.Mathlib.Omega.{arith}
use pyiamkit.Prelude.Results.{Result, ok, err}
use pyiamkit.Prelude.Results

abbrev pub Action : Type 0 → Type 0 → Type 0 → Type 0
Action S E A = S → Result E A × S

abbrev pub continue : {S E A B : Type 0} → Result E A × S → (A → Action S E B) → Result E B × S
continue (ok a, s) next = next a s
continue (err e, s) next = (err e, s)

infixl 5 ◌>>=◌ ◌>>◌
abbrev pub ◌>>=◌ : {S E A B : Type 0} → Action S E A → (A → Action S E B) → Action S E B
◌>>=◌ m next s = continue (m s) next

abbrev pub ◌>>◌ : {S E B : Type 0} → Action S E (Unit {0}) → Action S E B → Action S E B
m >> next = m >>= λ _. next

abbrev pub return : {S E A : Type 0} → A → Action S E A
return a s = (ok a, s)

-- A call that reads and writes nothing.
abbrev pub lift : {S E A : Type 0} → Result E A → Action S E A
lift r s = (r, s)

abbrev pub require : {S E : Type 0} → Bool → E → Action S E (Unit {0})
require b e s = (Results.guard b e, s)

-- `except Exception: handler; raise`.
abbrev reraise : {S E A : Type 0} → E → Result E (Unit {0}) × S → Result E A × S
reraise e (ok u, s) = (err e, s)
reraise e (err f, s) = (err f, s)

abbrev handle : {S E A : Type 0} → Result E A × S → Action S E (Unit {0}) → Result E A × S
handle (ok a, s) handler = (ok a, s)
handle (err e, s) handler = reraise e (handler s)

abbrev pub on_error : {S E A : Type 0} → Action S E A → Action S E (Unit {0}) → Action S E A
on_error m handler s = handle (m s) handler

module _ {S E A B : Type 0} where
  continue-ok :
      (r : Result E A × S) (next : A → Action S E B) {b : B} {t : S}
      → continue r next ≡ (ok b, t)
      → (a : A) × (s' : S) × (r ≡ (ok a, s')) × (next a s' ≡ (ok b, t))
  continue-ok (ok a, s') next h = (a, s', refl, h)
  continue-ok (err e, s') next h = absurd (ground arith)

  pub then-ok :
      (m : Action S E A) (next : A → Action S E B) (s : S) {b : B} {t : S}
      → (m >>= next) s ≡ (ok b, t)
      → (a : A) × (s' : S) × (m s ≡ (ok a, s')) × (next a s' ≡ (ok b, t))
  then-ok m next s h = continue-ok (m s) next h

module _ {S E B : Type 0} where
  pub then-require :
      (b : Bool) (e : E) (next : Action S E B) (s : S) {x : B} {t : S}
      → (require b e >> next) s ≡ (ok x, t)
      → (b ≡ true) × (next s ≡ (ok x, t))
  then-require true e next s h = (refl, h)
  then-require false e next s h = absurd (ground arith)

  pub then-lift :
      {A : Type 0} (r : Result E A) (next : A → Action S E B) (s : S) {x : B} {t : S}
      → (lift r >>= next) s ≡ (ok x, t)
      → (a : A) × (r ≡ ok a) × (next a s ≡ (ok x, t))
  then-lift (ok a) next s h = (a, refl, h)
  then-lift (err e) next s h = absurd (ground arith)

  pub return-ok : (a b : B) (s t : S) → return {E = E} a s ≡ (ok b, t) → (a ≡ b) × (s ≡ t)
  return-ok a b s t h = ground arith
