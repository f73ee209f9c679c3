-- ===== src/Operations/Runtime/Answers.antt =====
-- src/pyiamkit/operations/runtime.py: `can`, `require`, `explain` and `describe`, by `authorize`.
use pyiamkit.Prelude.{
  ℕ, ◌≤◌, ◌≡◌, refl, ◌⊎◌, inl, inr, Bool, true, Result, ok, err, Text, if◌then◌else◌, arith,
}
use pyiamkit.Authorization.Requests.{AuthorizationRequest}
use pyiamkit.Authorization.Decisions.{
  AuthorizationDecision, allowed, ExplanationLevel, DecisionExplanation, explanation,
}
use pyiamkit.Operations.Checks.{RuntimeError, Reads, Settings, RuntimeState}
use pyiamkit.Operations.Runtime.{authorize}
use pyiamkit.Operations.Runtime.Justified.{IsJustified, authorize-IsJustified}

-- What `require` raises: `AuthorizationDenied` with its decision, or what `authorize` raised.
pub data RequireError : Type 0 where
  authorization_denied : AuthorizationDecision → RequireError
  other_error : RuntimeError → RequireError

abbrev answer :
    {A : Type 0}
    → (AuthorizationDecision → A)
    → Result RuntimeError AuthorizationDecision
    → Result RuntimeError A
answer f (ok d) = ok (f d)
answer f (err e) = err e

abbrev require_allowed :
    Result RuntimeError AuthorizationDecision → Result RequireError AuthorizationDecision
require_allowed (ok d) = if allowed d then ok d else err (authorization_denied d)
require_allowed (err e) = err (other_error e)

module _ (settings : Settings) (key : Text) (request : AuthorizationRequest)
    (reads : ℕ → Reads) where
  unfoldable can : RuntimeState → Result RuntimeError Bool × RuntimeState
  can st = let (r, st') = authorize settings key request reads st in (answer allowed r, st')

  unfoldable require : RuntimeState → Result RequireError AuthorizationDecision × RuntimeState
  require st = let (r, st') = authorize settings key request reads st in (require_allowed r, st')

  -- `explain` is `authorize`.
  unfoldable describe :
      ExplanationLevel → RuntimeState → Result RuntimeError DecisionExplanation × RuntimeState
  describe level st =
      let (r, st') = authorize settings key request reads st in (answer (explanation level) r, st')

  -- `can` answers that a request is allowed, and `require` returns, only where an iteration of
  -- `authorize` justifies an allowing decision.
  can-IsJustified :
      (st : RuntimeState)
      → ((can st).0 ≡ ok true) ⊎ ((d : AuthorizationDecision) × ((require st).0 ≡ ok d))
      → (d : AuthorizationDecision) × (allowed d ≡ true)
        × (i : ℕ) × (i ≤ settings.max_state_retries)
        × IsJustified settings key request (reads i) st.entries d
  unfolding can require
  can-IsJustified st h =
      let (d, e, a) = returned (authorize settings key request reads st).0 h in
      let (i, l, p) = authorize-IsJustified settings key request reads st d e a in (d, a, i, l, p)
    where
      returned :
          (r : Result RuntimeError AuthorizationDecision)
          → (answer allowed r ≡ ok true)
            ⊎ ((d : AuthorizationDecision) × (require_allowed r ≡ ok d))
          → (d : AuthorizationDecision) × (r ≡ ok d) × (allowed d ≡ true)
      returned (ok d) (inl e) = (d, refl, ground arith)
      returned (ok d) (inr (x, e)) = (d, refl, ground arith)
      returned (err x) (inl e) = absurd (ground arith)
      returned (err x) (inr (y, e)) = absurd (ground arith)
