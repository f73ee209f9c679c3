-- ===== src/Authentication/Credential.antt =====
-- src/pyiamkit/authentication/domain/credential.py: the Credential aggregate. A method returns the
-- changed aggregate or raises; every check stands before the first write.
pub mod Lifecycle
use Prim.Native.String.{String}
use pyiamkit.Prelude.{
  ℕ, suc, Bool, true, false, not, ◌&&◌, Option, none, some, List, [], ◌∷◌, ◌++◌, Result, ok, ◌>>=◌,
  ◌>>◌, guard, Text, strip, strip_or_none, nonempty,
}
use pyiamkit.Shared.{
  DateTime, DomainEvent, MetaValue, before, up_to, before_end, require_utc, require_utc_or_none,
}
use pyiamkit.Authentication.Values.{
  CredentialStatus, CredentialType, AuthenticationEventType, AuthenticationError, value_error,
  invalid_credential, invalid_credential_transition, credential_created, credential_revoked,
  credential_expired,
}

-- The keyword arguments of `__init__`.
pub record CredentialArgs : Type 0 where
  pub id : ℕ
  pub version : ℕ
  pub identity_id : ℕ
  pub type : CredentialType
  pub status : CredentialStatus
  pub reference : Text
  pub created_at : DateTime
  pub updated_at : DateTime
  pub valid_from : DateTime
  pub valid_until : Option DateTime
  pub fingerprint : Option Text
  pub label : Option Text
  pub revoked_at : Option DateTime
  pub metadata : List (Text × MetaValue)

pub record Credential : Type 0 where
  pub args : CredentialArgs
  pub open args use *
  pub pending_events : List (DomainEvent AuthenticationEventType)

abbrev pub CredentialResult : Type 0
CredentialResult = Result AuthenticationError Credential

abbrev pub type_value : CredentialType → String
type_value CredentialType.password = "password"
type_value CredentialType.api_key = "api_key"
type_value CredentialType.certificate = "certificate"
type_value CredentialType.passkey = "passkey"
type_value CredentialType.client_secret = "client_secret"
type_value CredentialType.external = "external"

-- `_record`.
abbrev pub event :
    AuthenticationEventType → DateTime → CredentialArgs → DomainEvent AuthenticationEventType
event kind at c = record {
  event_type = kind;
  occurred_at = at;
  metadata =
      ("credential_id", MetaValue.id c.id)
      ∷ ("identity_id", MetaValue.id c.identity_id)
      ∷ ("credential_type", MetaValue.label (type_value c.type))
      ∷ [];
}

-- `__init__`. The order of the two bounds is checked right behind the zone of the second.
unfoldable pub init : CredentialArgs → CredentialResult
init c = do
  require_utc value_error c.created_at
  require_utc value_error c.updated_at
  require_utc value_error c.valid_from
  require_utc_or_none value_error c.valid_until
  guard (before_end c.valid_from c.valid_until) invalid_credential
  require_utc_or_none value_error c.revoked_at
  let reference = strip c.reference
  guard (nonempty reference) invalid_credential
  let fingerprint = strip_or_none c.fingerprint
  let label = strip_or_none c.label
  ok (record {
    args = record c { reference = reference; fingerprint = fingerprint; label = label };
    pending_events = [];
  })

unfoldable pub rehydrate : CredentialArgs → CredentialResult
unfolding init
rehydrate = init

-- The keyword arguments of `create`.
pub record NewCredential : Type 0 where
  pub of_identity : ℕ
  pub of_type : CredentialType
  pub reference : Text
  pub valid_from : Option DateTime
  pub valid_until : Option DateTime
  pub fingerprint : Option Text
  pub label : Option Text
  pub metadata : List (Text × MetaValue)

-- `created_at if valid_from is None else valid_from`.
abbrev or_created : Option DateTime → DateTime → DateTime
or_created none created = created
or_created (some from) created = from

-- `CredentialId.new()` is the argument `new_id`.
unfoldable pub create : ℕ → NewCredential → DateTime → CredentialResult
unfolding init
create new_id new created = do
  c ← init (record {
    id = new_id;
    version = 0;
    identity_id = new.of_identity;
    type = new.of_type;
    status = CredentialStatus.active;
    reference = new.reference;
    created_at = created;
    updated_at = created;
    valid_from = or_created new.valid_from created;
    valid_until = new.valid_until;
    fingerprint = new.fingerprint;
    label = new.label;
    revoked_at = none;
    metadata = new.metadata;
  })
  ok (record c {
    pending_events = c.pending_events ++ event credential_created created c.args ∷ [];
  })

abbrev pub is_active_status : CredentialStatus → Bool
is_active_status s = elim s [ CredentialStatus.active ↦ true | _ ↦ false ]

-- The value of `is_active(at=at)` for a moment `at` in UTC.
abbrev pub active_at : DateTime → CredentialArgs → Bool
active_at at c = is_active_status c.status && up_to c.valid_from at && before_end at c.valid_until

unfoldable pub is_active : DateTime → Credential → Result AuthenticationError Bool
is_active at c = do require_utc value_error at; ok (active_at at c.args)

-- The assignments of a method, then `_touch(at)` and `_record(kind, at)`.
abbrev pub changed : AuthenticationEventType → DateTime → CredentialArgs → Credential → Credential
changed kind at a c =
    let args = record a { version = suc a.version; updated_at = at } in
    record { args = args; pending_events = c.pending_events ++ event kind at args ∷ [] }

unfoldable pub revoke : DateTime → Credential → CredentialResult
revoke at c = do
  guard (is_active_status c.status) (invalid_credential_transition c.status)
  require_utc value_error at
  ok (
      changed credential_revoked at
        (record (c.args) { status = CredentialStatus.revoked; revoked_at = some at }) c)

unfoldable pub expire : DateTime → Credential → CredentialResult
expire at c = do
  guard (is_active_status c.status) (invalid_credential_transition c.status)
  require_utc value_error at
  guard (not (before_end at c.valid_until)) invalid_credential
  ok (changed credential_expired at (record (c.args) { status = CredentialStatus.expired }) c)

-- `pull_events`: the events, and the aggregate without them.
unfoldable pub pull_events : Credential → List (DomainEvent AuthenticationEventType) × Credential
pull_events c = (c.pending_events, record c { pending_events = [] })
