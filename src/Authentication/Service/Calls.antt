-- ===== src/Authentication/Service/Calls.antt =====
-- The steps of a service's method that returns.
use pyiamkit.Prelude.{◌≡◌, Result, ok, map_err, map_err-eq-ok}
use pyiamkit.Prelude.Actions.{◌>>=◌, then-lift}
use pyiamkit.Authentication.Values.{AuthenticationError}
use pyiamkit.Authentication.Service.{State, Method, domain, authentication}

-- The steps of a method that returns: each leaves the state.
module _ {B : Type 0} where
  pub then-domain :
      {A : Type 0} (r : Result AuthenticationError A) (next : A → Method B) (st : State) {x : B}
      {t : State}
      → (domain r >>= next) st ≡ (ok x, t)
      → (a : A) × (r ≡ ok a) × (next a st ≡ (ok x, t))
  then-domain r next st h =
      let (a, e, h₁) = then-lift (map_err authentication r) next st h in
      (a, map_err-eq-ok authentication r e, h₁)
