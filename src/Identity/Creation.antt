-- ===== src/Identity/Creation.antt =====
-- src/pyiamkit/identity/domain/aggregates/identity.py: what an Identity is, and how one is made.
use Prim.Native.String.{String}
use pyiamkit.Prelude.{
  ℕ, suc, false, not, ◌&&◌, Option, none, List, [], ◌∷◌, ◌++◌, Result, ok, err, ◌>>=◌, ◌>>◌, guard,
  Text, strip, length, leb, ◌==◌,
}
use pyiamkit.Shared.{DateTime, DomainEvent, MetaValue, require_utc, require_utc_or_none}
use pyiamkit.Identity.Values.{
  IdentityStatus, IdentityType, type_value, IdentityEventType, IdentityError, value_error,
  type_error, invalid_display_name, invalid_service_account, identity_created,
  service_account_created, EmailAddress, User, ServiceAccount, make_service_account,
  IdentityProfile, of_user, of_service, ExternalIdentityLink,
}

-- The keyword arguments of `__init__`.
pub record IdentityArgs : Type 0 where
  pub id : ℕ
  pub version : ℕ
  pub type : IdentityType
  pub status : IdentityStatus
  pub display_name : Text
  pub profile : IdentityProfile
  pub created_at : DateTime
  pub updated_at : DateTime
  pub activated_at : Option DateTime
  pub suspended_at : Option DateTime
  pub disabled_at : Option DateTime
  pub archived_at : Option DateTime
  pub external_links : List ExternalIdentityLink
  pub metadata : List (Text × MetaValue)

pub record Identity : Type 0 where
  pub args : IdentityArgs
  pub open args use *
  pub pending_events : List (DomainEvent IdentityEventType)

abbrev pub IdentityResult : Type 0
IdentityResult = Result IdentityError Identity

unfoldable pub normalize_display_name : Text → Result IdentityError Text
normalize_display_name value = do
  let name = strip value
  guard (leb 1 (length name) && leb (length name) 255) invalid_display_name
  ok name

-- `_validate_profile`.
unfoldable pub validate_profile :
    IdentityType → ℕ → IdentityProfile → Result IdentityError (Unit {0})
validate_profile IdentityType.user id (of_user p) = ok tt
validate_profile IdentityType.user id (of_service p) = err type_error
validate_profile IdentityType.service_account id (of_user p) = err type_error
validate_profile IdentityType.service_account id (of_service p) =
    guard (not (p.owner_identity_id == id)) invalid_service_account

-- `_record`: the payload starts with the identifier.
abbrev pub event :
    IdentityEventType
    → DateTime
    → List (String × MetaValue)
    → IdentityArgs
    → DomainEvent IdentityEventType
event kind at metadata i = record {
  event_type = kind;
  occurred_at = at;
  metadata = ("identity_id", MetaValue.id i.id) ∷ metadata;
}

-- `__init__`.
unfoldable pub init : IdentityArgs → IdentityResult
unfolding normalize_display_name validate_profile
init i = do
  require_utc value_error i.created_at
  require_utc value_error i.updated_at
  require_utc_or_none value_error i.activated_at
  require_utc_or_none value_error i.suspended_at
  require_utc_or_none value_error i.disabled_at
  require_utc_or_none value_error i.archived_at
  name ← normalize_display_name i.display_name
  validate_profile i.type i.id i.profile
  ok (record { args = record i { display_name = name }; pending_events = [] })

unfoldable pub rehydrate : IdentityArgs → IdentityResult
unfolding init
rehydrate = init

-- The arguments of a new Identity. `IdentityId.new()` is the argument `new_id`.
abbrev new_args :
    ℕ → IdentityType → Text → IdentityProfile → DateTime → List (Text × MetaValue) → IdentityArgs
new_args new_id type name profile created metadata = record {
  id = new_id;
  version = 0;
  type = type;
  status = IdentityStatus.pending;
  display_name = name;
  profile = profile;
  created_at = created;
  updated_at = created;
  activated_at = none;
  suspended_at = none;
  disabled_at = none;
  archived_at = none;
  external_links = [];
  metadata = metadata;
}

abbrev type_entry : IdentityType → String × MetaValue
type_entry t = ("identity_type", MetaValue.label (type_value t))

unfoldable pub create_user :
    ℕ → Text → DateTime → Option EmailAddress → List (Text × MetaValue) → IdentityResult
unfolding init
create_user new_id name created email metadata = do
  let profile : User = record {
    primary_email = email;
    email_verified = false;
    first_name = none;
    last_name = none;
    locale = none;
    timezone = none;
  }
  i ← init (new_args new_id IdentityType.user name (of_user profile) created metadata)
  let created_event = event identity_created created (type_entry IdentityType.user ∷ []) i.args
  ok (record i { pending_events = i.pending_events ++ created_event ∷ [] })

-- The arguments `name`, `owner_identity_id`, `purpose`, `environment` and `expires_at` are the
-- record `account`.
unfoldable pub create_service_account :
    ℕ → Text → ServiceAccount → DateTime → List (Text × MetaValue) → IdentityResult
unfolding init make_service_account
create_service_account new_id name account created metadata = do
  guard (not (account.owner_identity_id == new_id)) invalid_service_account
  profile ← make_service_account account
  i ← init (new_args new_id IdentityType.service_account name (of_service profile) created metadata)
  let base = type_entry IdentityType.service_account
  let owner : String × MetaValue = ("owner_identity_id", MetaValue.id account.owner_identity_id)
  ok (record i {
    pending_events =
        i.pending_events
        ++ (event identity_created created (base ∷ []) i.args
            ∷ event service_account_created created (base ∷ owner ∷ []) i.args
            ∷ []);
  })

-- The assignments of a method, then `_touch(at)` and `_record(kind, at, metadata)`.
abbrev pub changed :
    IdentityEventType → DateTime → List (String × MetaValue) → IdentityArgs → Identity → Identity
changed kind at metadata a i =
    let args = record a { version = suc a.version; updated_at = at } in
    record { args = args; pending_events = i.pending_events ++ event kind at metadata args ∷ [] }
