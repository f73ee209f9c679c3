-- ===== src/Authentication/Session/Storage.antt =====
-- When a Session can be stored and loaded: its invariant, and the calls that keep it.
use pyiamkit.Prelude.{
  ◌≡◌, refl, Bool, true, Option, some, List, [], ◌∷◌, ok, err, Text, strip_or_none,
  strip_or_none_idem, ◌&&◌, arith,
}
use pyiamkit.Shared.{DateTime, after, run, is_utc, is_utc_or_none, before, up_to}
use pyiamkit.Authentication.Values.{SessionStatus, invalid_session, session_revoked}
use pyiamkit.Authentication.Context.{or_none_up_to}
use pyiamkit.Authentication.Session.{
  Session, SessionArgs, SessionResult, init, rehydrate, is_active_status, require_activity, changed,
  touch, revoke, expire,
}
use pyiamkit.Authentication.Session.Lifecycle.{Call, call, step_up-eq}

-- What `__init__` has checked of a Session.
pub record IsValid (s : SessionArgs) : Type 0 where
  pub created_utc : is_utc s.created_at ≡ true
  pub updated_utc : is_utc s.updated_at ≡ true
  pub expires_utc : is_utc s.expires_at ≡ true
  pub activity_utc : is_utc s.last_activity_at ≡ true
  pub revoked_utc : is_utc_or_none s.revoked_at ≡ true
  pub lasting : before s.created_at s.expires_at ≡ true
  pub authenticated : up_to s.context.authenticated_at s.created_at ≡ true
  pub verified : or_none_up_to s.context.mfa_verified_at s.updated_at ≡ true
  pub used : up_to s.created_at s.last_activity_at ≡ true
  pub updated : up_to s.last_activity_at s.updated_at ≡ true
  pub normalized : strip_or_none s.revocation_reason ≡ s.revocation_reason

pub init-IsValid : (a : SessionArgs) {s : Session} → init a ≡ ok s → IsValid s.args
unfolding init
init-IsValid a h = ground (arith, strip_or_none_idem a.revocation_reason)

pub init_rehydrates :
    (s : Session) → IsValid s.args → init s.args ≡ ok (record s { pending_events = [] })
unfolding init
init_rehydrates s v = ground arith

-- A call at a moment that is not before the last update keeps the invariant.
pub call-IsValid :
    (c : Call) (at : DateTime) (s : Session) {s' : Session}
    → up_to s.updated_at at ≡ true
    → IsValid s.args
    → call c at s ≡ ok s'
    → IsValid s'.args
unfolding touch expire revoke require_activity
call-IsValid Call.touches at s o v h = ground arith
call-IsValid Call.expires at s o v h = ground arith
call-IsValid (Call.revokes reason) at s o v h = ground (arith, strip_or_none_idem reason)
call-IsValid (Call.steps_up level factor) at s {s'} o v h =
    let (a, l, u, c, p, q, r, t, e) = step_up-eq level factor at s h in ground arith

-- The moments of the calls go forward from `t` on.
abbrev pub in_order : DateTime → List (DateTime × Call) → Bool
in_order t [] = true
in_order t ((at, c) ∷ cs) = up_to t at && in_order at cs

in_order-up_to :
    (t at : DateTime) (cs : List (DateTime × Call))
    → up_to t at ≡ true
    → in_order at cs ≡ true
    → in_order t cs ≡ true
in_order-up_to t at [] h k = refl
in_order-up_to t at ((u, c) ∷ cs) h k = ground arith

call-updated :
    (c : Call) (at : DateTime) (s : Session) {s' : Session}
    → call c at s ≡ ok s'
    → s'.updated_at ≡ at
unfolding touch expire revoke require_activity
call-updated Call.touches at s h = ground arith
call-updated Call.expires at s h = ground arith
call-updated (Call.revokes reason) at s h = ground arith
call-updated (Call.steps_up level factor) at s h =
    let (a, l, u, c, p, q, r, t, e) = step_up-eq level factor at s h in ground arith

after_in_order :
    (c : Call) (at : DateTime) (s : Session) (r : SessionResult)
    → call c at s ≡ r
    → up_to s.updated_at at ≡ true
    → IsValid s.args
    → (cs : List (DateTime × Call)) → in_order at cs ≡ true
    → IsValid (after s r).args × (in_order (after s r).updated_at cs ≡ true)
after_in_order c at s (ok s') e o v cs h = (call-IsValid c at s o v e, rw (call-updated c at s e) h)
after_in_order c at s (err x) e o v cs h = (v, in_order-up_to s.updated_at at cs o h)

run-IsValid :
    (cs : List (DateTime × Call)) (s : Session)
    → in_order s.updated_at cs ≡ true
    → IsValid s.args
    → IsValid (run call cs s).args
unfolding run
run-IsValid [] s o v = v
run-IsValid ((at, c) ∷ cs) s o v =
    let (v', o') = after_in_order c at s (call c at s) refl (ground arith) v cs (ground arith) in
    run-IsValid cs (after s (call c at s)) o' v'

-- A Session that its constructor made can be stored and loaded after any calls whose moments go
-- forward from its last update: `_rehydrate` takes the arguments that they leave and gives the
-- same Session again, without its pending events.
pub session-rehydrates :
    (a : SessionArgs) {s : Session}
    → init a ≡ ok s
    → (cs : List (DateTime × Call)) → in_order s.updated_at cs ≡ true
    → rehydrate (run call cs s).args ≡ ok (record (run call cs s) { pending_events = [] })
unfolding rehydrate
session-rehydrates a {s} h cs o =
    init_rehydrates (run call cs s) (run-IsValid cs s o (init-IsValid a h))

-- The order of the moments is needed, since `revoke` does not check it: a valid active Session
-- can be revoked at a moment in UTC before its last activity, and `_rehydrate` then refuses what
-- was stored.
pub revoke-rehydrate :
    (reason : Option Text) (at : DateTime) (s : Session)
    → IsValid s.args
    → is_active_status s.status ≡ true
    → is_utc at ≡ true
    → before at s.last_activity_at ≡ true
    → (s' : Session) × (revoke reason at s ≡ ok s') × (rehydrate s'.args ≡ err invalid_session)
unfolding revoke rehydrate init
revoke-rehydrate reason at s v a u b =
    let s' : Session =
      changed session_revoked at
        (record (s.args) {
          status = SessionStatus.revoked;
          revoked_at = some at;
          revocation_reason = strip_or_none reason;
        })
        s in
    (s', ground arith, ground arith)
