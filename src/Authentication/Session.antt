-- ===== src/Authentication/Session.antt =====
-- src/pyiamkit/authentication/domain/session.py: the Session aggregate. A method returns the changed
-- aggregate or raises; every check stands before the first write.
pub mod Lifecycle
pub mod Storage
use Prim.Native.String.{String}
use pyiamkit.Prelude.{
  ℕ, suc, Bool, true, false, not, ◌&&◌, Option, none, some, List, [], ◌∷◌, ◌++◌, Result, ok, ◌>>=◌,
  ◌>>◌, guard, Text, strip_or_none, leb, if◌then◌else◌,
}
use pyiamkit.Shared.{
  DateTime, DomainEvent, MetaValue, before, up_to, require_utc, require_utc_or_none, id_text,
}
use pyiamkit.Authentication.Values.{
  SessionStatus, AssuranceLevel, AuthenticationMethod, assurance_rank, AuthenticationEventType,
  AuthenticationError, value_error, invalid_session, invalid_session_transition, session_opened,
  session_touched, session_revoked, session_expired, session_stepped_up,
}
use pyiamkit.Authentication.Context.{AuthenticationContext, make_context, or_none_up_to}

-- The keyword arguments of `__init__`.
pub record SessionArgs : Type 0 where
  pub id : ℕ
  pub version : ℕ
  pub identity_id : ℕ
  pub status : SessionStatus
  pub context : AuthenticationContext
  pub created_at : DateTime
  pub updated_at : DateTime
  pub expires_at : DateTime
  pub last_activity_at : DateTime
  pub revoked_at : Option DateTime
  pub revocation_reason : Option Text

pub record Session : Type 0 where
  pub args : SessionArgs
  pub open args use *
  pub pending_events : List (DomainEvent AuthenticationEventType)

abbrev pub SessionResult : Type 0
SessionResult = Result AuthenticationError Session

abbrev method_value : AuthenticationMethod → String
method_value AuthenticationMethod.password = "password"
method_value AuthenticationMethod.api_key = "api_key"
method_value AuthenticationMethod.certificate = "certificate"
method_value AuthenticationMethod.passkey = "passkey"
method_value AuthenticationMethod.oidc = "oidc"
method_value AuthenticationMethod.saml = "saml"
method_value AuthenticationMethod.external = "external"

abbrev level_value : AssuranceLevel → String
level_value AssuranceLevel.aal1 = "aal1"
level_value AssuranceLevel.aal2 = "aal2"
level_value AssuranceLevel.aal3 = "aal3"

-- `_record`.
abbrev pub event :
    AuthenticationEventType → DateTime → SessionArgs → DomainEvent AuthenticationEventType
event kind at s = record {
  event_type = kind;
  occurred_at = at;
  metadata =
      ("session_id", MetaValue.id s.id)
      ∷ ("identity_id", MetaValue.id s.identity_id)
      ∷ ("authentication_method", MetaValue.label (method_value s.context.method))
      ∷ ("assurance_level", MetaValue.label (level_value s.context.assurance_level))
      ∷ ("mfa", MetaValue.flag s.context.mfa)
      ∷ ("expires_at", MetaValue.moment s.expires_at)
      ∷ [];
}

-- `__init__`, on a context that has passed its own constructor.
unfoldable pub init : SessionArgs → SessionResult
init s = do
  require_utc value_error s.created_at
  require_utc value_error s.updated_at
  require_utc value_error s.expires_at
  require_utc value_error s.last_activity_at
  require_utc_or_none value_error s.revoked_at
  guard (before s.created_at s.expires_at) invalid_session
  guard (up_to s.context.authenticated_at s.created_at) invalid_session
  guard (or_none_up_to s.context.mfa_verified_at s.updated_at) invalid_session
  guard (up_to s.created_at s.last_activity_at && up_to s.last_activity_at s.updated_at)
      invalid_session
  ok (record {
    args = record s { revocation_reason = strip_or_none s.revocation_reason };
    pending_events = [];
  })

unfoldable pub rehydrate : SessionArgs → SessionResult
unfolding init
rehydrate = init

-- `SessionId.new()` is the argument `new_id`.
unfoldable pub open_session : ℕ → ℕ → AuthenticationContext → DateTime → DateTime → SessionResult
unfolding init
open_session new_id identity context created expires = do
  s ← init (record {
    id = new_id;
    version = 0;
    identity_id = identity;
    status = SessionStatus.active;
    context = context;
    created_at = created;
    updated_at = created;
    expires_at = expires;
    last_activity_at = created;
    revoked_at = none;
    revocation_reason = none;
  })
  ok (record s { pending_events = s.pending_events ++ event session_opened created s.args ∷ [] })

abbrev pub is_active_status : SessionStatus → Bool
is_active_status s = elim s [ SessionStatus.active ↦ true | _ ↦ false ]

-- The value of `is_active(at=at)` for a moment `at` in UTC.
abbrev pub active_at : DateTime → SessionArgs → Bool
active_at at s = is_active_status s.status && before at s.expires_at

unfoldable pub is_active : DateTime → Session → Result AuthenticationError Bool
is_active at s = do require_utc value_error at; ok (active_at at s.args)

-- The assignments of a method, then `_touch(at)` and `_record(kind, at)`.
abbrev pub changed : AuthenticationEventType → DateTime → SessionArgs → Session → Session
changed kind at a s =
    let args = record a { version = suc a.version; updated_at = at } in
    record { args = args; pending_events = s.pending_events ++ event kind at args ∷ [] }

-- The checks that open `touch` and `step_up`.
unfoldable pub require_activity : DateTime → Session → Result AuthenticationError (Unit {0})
require_activity at s = do
  require_utc value_error at
  guard (active_at at s.args) (invalid_session_transition s.status)
  guard (up_to s.last_activity_at at) invalid_session

unfoldable pub touch : DateTime → Session → SessionResult
unfolding require_activity
touch at s = do
  require_activity at s
  ok (changed session_touched at (record (s.args) { last_activity_at = at }) s)

-- The higher of two assurance levels; the first of equals.
abbrev pub higher : AssuranceLevel → AssuranceLevel → AssuranceLevel
higher a b = if leb (assurance_rank b) (assurance_rank a) then a else b

-- The arguments of the AuthenticationContext that a step-up makes.
abbrev pub stepped : AssuranceLevel → ℕ → DateTime → AuthenticationContext → AuthenticationContext
stepped level factor_id at c = record c {
  assurance_level = higher c.assurance_level level;
  mfa = true;
  mfa_verified_at = some at;
  mfa_factor_id = some (id_text factor_id);
}

unfoldable pub step_up : AssuranceLevel → ℕ → DateTime → Session → SessionResult
unfolding require_activity make_context
step_up level factor_id at s = do
  require_activity at s
  context ← make_context (stepped level factor_id at s.context)
  ok (
      changed session_stepped_up at (record (s.args) { context = context; last_activity_at = at })
        s)

unfoldable pub revoke : Option Text → DateTime → Session → SessionResult
revoke reason at s = do
  guard (is_active_status s.status) (invalid_session_transition s.status)
  require_utc value_error at
  ok (
      changed session_revoked at
        (record (s.args) {
          status = SessionStatus.revoked;
          revoked_at = some at;
          revocation_reason = strip_or_none reason;
        })
        s)

unfoldable pub expire : DateTime → Session → SessionResult
expire at s = do
  guard (is_active_status s.status) (invalid_session_transition s.status)
  require_utc value_error at
  guard (up_to s.expires_at at) invalid_session
  ok (changed session_expired at (record (s.args) { status = SessionStatus.expired }) s)

-- `pull_events`: the events, and the aggregate without them.
unfoldable pub pull_events : Session → List (DomainEvent AuthenticationEventType) × Session
pull_events s = (s.pending_events, record s { pending_events = [] })
