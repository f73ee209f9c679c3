-- ===== src/Authentication/MfaFactor.antt =====
-- src/pyiamkit/authentication/domain/mfa_factor.py: the MfaFactor aggregate. A method returns the
-- changed aggregate or raises; every check stands before the first write.
pub mod Lifecycle
use Prim.Native.String.{String}
use pyiamkit.Prelude.{
  ℕ, suc, Bool, true, false, not, ◌&&◌, Option, none, some, List, [], ◌∷◌, ◌++◌, Result, ok, ◌>>=◌,
  ◌>>◌, guard, Text, strip, strip_or_none, nonempty, ℤ, is_negative, int_leb,
}
use pyiamkit.Shared.{
  DateTime, DomainEvent, MetaValue, before, up_to, require_utc, require_utc_or_none,
}
use pyiamkit.Authentication.Values.{
  MfaFactorStatus, MfaFactorType, AuthenticationEventType, AuthenticationError, value_error,
  invalid_mfa_factor, invalid_mfa_factor_transition, mfa_replay_detected, mfa_factor_created,
  mfa_factor_activated, mfa_factor_verified, mfa_factor_revoked,
}
use pyiamkit.Authentication.Context.{up_to_or_none}

-- The keyword arguments of `__init__`.
pub record MfaFactorArgs : Type 0 where
  pub id : ℕ
  pub version : ℕ
  pub identity_id : ℕ
  pub type : MfaFactorType
  pub status : MfaFactorStatus
  pub secret_reference : Text
  pub created_at : DateTime
  pub updated_at : DateTime
  pub label : Option Text
  pub activated_at : Option DateTime
  pub revoked_at : Option DateTime
  pub last_verified_at : Option DateTime
  pub last_accepted_counter : Option ℤ

pub record MfaFactor : Type 0 where
  pub args : MfaFactorArgs
  pub open args use *
  pub pending_events : List (DomainEvent AuthenticationEventType)

abbrev pub FactorResult : Type 0
FactorResult = Result AuthenticationError MfaFactor

abbrev pub type_value : MfaFactorType → String
type_value MfaFactorType.totp = "totp"

-- `_record`.
abbrev pub event :
    AuthenticationEventType → DateTime → MfaFactorArgs → DomainEvent AuthenticationEventType
event kind at f = record {
  event_type = kind;
  occurred_at = at;
  metadata =
      ("factor_id", MetaValue.id f.id)
      ∷ ("identity_id", MetaValue.id f.identity_id)
      ∷ ("factor_type", MetaValue.label (type_value f.type))
      ∷ [];
}

-- `last_accepted_counter is None or last_accepted_counter >= 0`.
abbrev pub counter_ok : Option ℤ → Bool
counter_ok none = true
counter_ok (some n) = not (is_negative n)

-- `__init__`.
unfoldable pub init : MfaFactorArgs → FactorResult
init f = do
  require_utc value_error f.created_at
  require_utc value_error f.updated_at
  require_utc_or_none value_error f.activated_at
  require_utc_or_none value_error f.revoked_at
  require_utc_or_none value_error f.last_verified_at
  let reference = strip f.secret_reference
  let label = strip_or_none f.label
  guard (nonempty reference) invalid_mfa_factor
  guard (counter_ok f.last_accepted_counter) invalid_mfa_factor
  guard (up_to_or_none f.created_at f.activated_at) invalid_mfa_factor
  guard (up_to_or_none f.created_at f.revoked_at) invalid_mfa_factor
  guard (up_to_or_none f.created_at f.last_verified_at) invalid_mfa_factor
  ok (record {
    args = record f { secret_reference = reference; label = label };
    pending_events = [];
  })

unfoldable pub rehydrate : MfaFactorArgs → FactorResult
unfolding init
rehydrate = init

unfoldable pub create : ℕ → ℕ → MfaFactorType → Text → DateTime → Option Text → FactorResult
unfolding init
create factor_id identity type reference created label = do
  f ← init (record {
    id = factor_id;
    version = 0;
    identity_id = identity;
    type = type;
    status = MfaFactorStatus.pending;
    secret_reference = reference;
    created_at = created;
    updated_at = created;
    label = label;
    activated_at = none;
    revoked_at = none;
    last_verified_at = none;
    last_accepted_counter = none;
  })
  ok (record f {
    pending_events = f.pending_events ++ event mfa_factor_created created f.args ∷ [];
  })

abbrev pub is_pending : MfaFactorStatus → Bool
is_pending s = elim s [ MfaFactorStatus.pending ↦ true | _ ↦ false ]

-- `is_active`.
abbrev pub is_active : MfaFactorStatus → Bool
is_active s = elim s [ MfaFactorStatus.active ↦ true | _ ↦ false ]

abbrev pub is_revoked : MfaFactorStatus → Bool
is_revoked s = elim s [ MfaFactorStatus.revoked ↦ true | _ ↦ false ]

-- `last_accepted_counter is not None and counter <= last_accepted_counter`.
abbrev pub is_replay : ℤ → Option ℤ → Bool
is_replay counter none = false
is_replay counter (some n) = int_leb counter n

-- `_accept_counter`: its checks, and the arguments after its writes.
unfoldable pub accept_counter : ℤ → DateTime → MfaFactor → Result AuthenticationError MfaFactorArgs
accept_counter counter at f = do
  require_utc value_error at
  guard (not (is_negative counter)) invalid_mfa_factor
  guard (not (is_replay counter f.last_accepted_counter)) (mfa_replay_detected f.id)
  ok (record (f.args) { last_accepted_counter = some counter; last_verified_at = some at })

-- The assignments of a method, then `_touch(at)` and `_record(kind, at)`.
abbrev pub changed : AuthenticationEventType → DateTime → MfaFactorArgs → MfaFactor → MfaFactor
changed kind at a f =
    let args = record a { version = suc a.version; updated_at = at } in
    record { args = args; pending_events = f.pending_events ++ event kind at args ∷ [] }

unfoldable pub activate : ℤ → DateTime → MfaFactor → FactorResult
unfolding accept_counter
activate counter at f = do
  guard (is_pending f.status) (invalid_mfa_factor_transition f.status)
  a ← accept_counter counter at f
  ok (
      changed mfa_factor_activated at
        (record a { status = MfaFactorStatus.active; activated_at = some at }) f)

unfoldable pub record_verification : ℤ → DateTime → MfaFactor → FactorResult
unfolding accept_counter
record_verification counter at f = do
  guard (is_active f.status) (invalid_mfa_factor_transition f.status)
  a ← accept_counter counter at f
  ok (changed mfa_factor_verified at a f)

unfoldable pub revoke : DateTime → MfaFactor → FactorResult
revoke at f = do
  guard (not (is_revoked f.status)) (invalid_mfa_factor_transition f.status)
  require_utc value_error at
  ok (
      changed mfa_factor_revoked at
        (record (f.args) { status = MfaFactorStatus.revoked; revoked_at = some at }) f)

-- `pull_events`: the events, and the aggregate without them.
unfoldable pub pull_events : MfaFactor → List (DomainEvent AuthenticationEventType) × MfaFactor
pull_events f = (f.pending_events, record f { pending_events = [] })
