-- ===== src/Authentication/Session/Lifecycle.antt =====
-- The life of a Session: what sequences of its calls keep.
use pyiamkit.Prelude.{
  ℕ, suc, ◌≤◌, ◌≡◌, refl, true, false, Option, some, List, ok, Text, >>=-eq-ok, ◌∙◌, arith,
}
use pyiamkit.Shared.{DateTime, after, run, run-keep, run_fixed, is_utc, before, up_to}
use pyiamkit.Authentication.Values.{AssuranceLevel, assurance_rank}
use pyiamkit.Authentication.Context.{AuthenticationContext, make_context}
use pyiamkit.Authentication.Session.{
  Session, SessionArgs, SessionResult, is_active_status, active_at, require_activity, stepped,
  touch, step_up, revoke, expire, higher,
}

-- The four methods that change a Session.
pub data Call : Type 0 where
  touches expires : Call
  steps_up : AssuranceLevel → ℕ → Call
  revokes : Option Text → Call

abbrev pub call : Call → DateTime → Session → SessionResult
call Call.touches = touch
call Call.expires = expire
call (Call.steps_up level factor) = step_up level factor
call (Call.revokes reason) = revoke reason

-- What a context keeps in its constructor.
pub context-kept :
    (c : AuthenticationContext) {c' : AuthenticationContext}
    → make_context c ≡ ok c'
    → (c'.assurance_level ≡ c.assurance_level)
      × (c'.mfa ≡ c.mfa)
      × (c'.authenticated_at ≡ c.authenticated_at)
      × (c'.mfa_verified_at ≡ c.mfa_verified_at)
unfolding make_context
context-kept c h = ground arith

require_activity-ok :
    (at : DateTime) (s : Session) {x : Unit {0}}
    → require_activity at s ≡ ok x
    → (active_at at s.args ≡ true) × (up_to s.last_activity_at at ≡ true) × (is_utc at ≡ true)
unfolding require_activity
require_activity-ok at s h = ground arith

-- What a `step_up` that returns has done.
pub step_up-eq :
    (level : AssuranceLevel) (factor : ℕ) (at : DateTime) (s : Session) {s' : Session}
    → step_up level factor at s ≡ ok s'
    → (active_at at s.args ≡ true)
      × (up_to s.last_activity_at at ≡ true)
      × (is_utc at ≡ true)
      × (c : AuthenticationContext) × (c.assurance_level ≡ higher s.context.assurance_level level)
      × (c.mfa ≡ true)
      × (c.authenticated_at ≡ s.context.authenticated_at)
      × (c.mfa_verified_at ≡ some at)
      × (s'.args ≡ record (s.args) {
        context = c;
        last_activity_at = at;
        version = suc s.version;
        updated_at = at;
      })
unfolding step_up
step_up-eq level factor at s {s'} h =
    let (_, e, h₁) = >>=-eq-ok (require_activity at s) _ h in
    let (c, e₂, h₂) = >>=-eq-ok (make_context (stepped level factor at s.context)) _ h₁ in
    let (p, q, r, t) = context-kept (stepped level factor at s.context) e₂ in
    let (a, l, u) = require_activity-ok at s e in (a, l, u, c, p, q, r, t, ground arith)

-- What no call takes from a Session or gives to it.
pub record IsKept (s s' : SessionArgs) : Type 0 where
  pub same_id : s'.id ≡ s.id
  pub same_identity : s'.identity_id ≡ s.identity_id
  pub same_created : s'.created_at ≡ s.created_at
  pub same_expires : s'.expires_at ≡ s.expires_at
  pub same_authenticated : s'.context.authenticated_at ≡ s.context.authenticated_at
  pub assurance :
      assurance_rank s.context.assurance_level ≤ assurance_rank s'.context.assurance_level
  pub mfa : s.context.mfa ≡ true → s'.context.mfa ≡ true

call-IsKept :
    (c : Call) (at : DateTime) (s : Session) {s' : Session}
    → call c at s ≡ ok s'
    → IsKept s.args s'.args
unfolding touch expire revoke require_activity
call-IsKept Call.touches at s h = ground arith
call-IsKept Call.expires at s h = ground arith
call-IsKept (Call.revokes reason) at s h = ground arith
call-IsKept (Call.steps_up level factor) at s h =
    let (a, l, u, c, p, q, r, t, e) = step_up-eq level factor at s h in ground arith

IsKept-trans : (a b c : SessionArgs) → IsKept a b → IsKept b c → IsKept a c
IsKept-trans a b c h k = record {
  same_id = k.same_id ∙ h.same_id;
  same_identity = k.same_identity ∙ h.same_identity;
  same_created = k.same_created ∙ h.same_created;
  same_expires = k.same_expires ∙ h.same_expires;
  same_authenticated = k.same_authenticated ∙ h.same_authenticated;
  assurance = omega (arith, h.assurance, k.assurance);
  mfa = λ m. k.mfa (h.mfa m);
}

IsKept-refl : (s : SessionArgs) → IsKept s s
IsKept-refl s = ground arith

run-IsKept : (cs : List (DateTime × Call)) (s : Session) → IsKept s.args (run call cs s).args
run-IsKept cs s =
    run-keep call (λ (x : Session). IsKept s.args x.args)
      (λ c at x y k e. IsKept-trans s.args x.args y.args k (call-IsKept c at x e)) cs s
      (IsKept-refl s.args)

-- Whatever methods are called on a Session, at whatever moments: it stays the session of its identity
-- and of its authentication, its assurance never falls and a verified second factor is never lost,
-- and it cannot be extended: it is active at no moment from its first `expires_at` on.
pub session-IsKept :
    (cs : List (DateTime × Call)) (s : Session) (t : DateTime)
    → IsKept s.args (run call cs s).args
      × (active_at t (run call cs s).args ≡ true → before t s.expires_at ≡ true)
session-IsKept cs s t = let k = run-IsKept cs s in (k, λ a. ground (arith, k.same_expires))

closed_after :
    (c : Call) (at : DateTime) (s : Session)
    → is_active_status s.status ≡ false
    → after s (call c at s) ≡ s
unfolding touch expire revoke step_up require_activity
closed_after Call.touches at s h = ground arith
closed_after Call.expires at s h = ground arith
closed_after (Call.revokes reason) at s h = ground arith
closed_after (Call.steps_up level factor) at s h = ground arith

-- A Session that is revoked, or that has expired, stays as it is whatever is called, and is active at
-- no moment.
pub session-final :
    (s : Session)
    → is_active_status s.status ≡ false
    → (cs : List (DateTime × Call)) (t : DateTime)
    → (run call cs s ≡ s) × (active_at t (run call cs s).args ≡ false)
session-final s h cs t =
    rw (run_fixed call s (λ c at. closed_after c at s h) cs) (refl, ground arith)
