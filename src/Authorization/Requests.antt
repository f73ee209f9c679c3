-- ===== src/Authorization/Requests.antt =====
-- src/pyiamkit/authorization/domain/decision.py and domain/governance.py: requests, resources, rules
-- and violations. A resource's attribute is any object of the host: it stands by the three things
-- that the program asks of it.
use pyiamkit.Prelude.{
  ℕ, Bool, Option, none, some, List, [], ◌∷◌, Result, ok, ◌>>◌, guard, Text, text_beq, strip,
  Unicode, ◌==◌, if◌then◌else◌, not,
}
use pyiamkit.Shared.{DateTime, require_utc}
use pyiamkit.Tenancy.Values.{TenantScope}
use pyiamkit.Authentication.Values.{AssuranceLevel}
use pyiamkit.Authorization.Values.{PermissionCode, AuthorizationError, value_error}

-- `isinstance(raw, bool)`, `str(raw)`, and the IdentityId that it equals, if there is one.
pub record AttributeValue : Type 0 where
  pub is_bool : Bool
  pub text : Text
  pub identity : Option ℕ

pub record ResourceDescriptor : Type 0 where
  pub resource_type : Text
  pub resource_id : Text
  pub tenant_id : ℕ
  pub owner_id : Option ℕ
  pub attributes : List (Text × AttributeValue)

abbrev pub get_attribute : Text → List (Text × AttributeValue) → Option AttributeValue
get_attribute k [] = none
get_attribute k ((j, v) ∷ rest) = if text_beq k j then some v else get_attribute k rest

-- `ResourceDescriptor.__post_init__`.
unfoldable pub describe_resource :
    Unicode → ResourceDescriptor → Result AuthorizationError ResourceDescriptor
describe_resource u r = do
  let kind = u.lower (strip r.resource_type)
  let id = strip r.resource_id
  guard (not (text_beq kind [])) value_error
  guard (not (text_beq id [])) value_error
  ok (record r { resource_type = kind; resource_id = id })

pub record AuthenticationEvidence : Type 0 where
  pub assurance_level : AssuranceLevel
  pub mfa : Bool
  pub authenticated_at : DateTime

-- `AuthenticationEvidence.__post_init__`.
unfoldable pub check_evidence :
    AuthenticationEvidence → Result AuthorizationError AuthenticationEvidence
check_evidence e = do require_utc value_error e.authenticated_at; ok e

pub record AuthorizationRequest : Type 0 where
  pub subject_id : ℕ
  pub tenant_id : ℕ
  pub permission : PermissionCode
  pub scope : TenantScope
  pub resource : Option ResourceDescriptor
  pub authentication : Option AuthenticationEvidence
  pub correlation_id : Option Text

abbrev resource_in : ℕ → Option ResourceDescriptor → Bool
resource_in tenant none = Bool.true
resource_in tenant (some r) = r.tenant_id == tenant

-- `AuthorizationRequest.__post_init__`.
unfoldable pub check_request : AuthorizationRequest → Result AuthorizationError AuthorizationRequest
check_request r = do
  guard (r.scope.tenant_id == r.tenant_id) value_error
  guard (resource_in r.tenant_id r.resource) value_error
  ok r

pub data GovernanceViolationKind : Type 0 where
  authentication_context_missing assurance_step_up_required : GovernanceViolationKind
  constraint_context_missing constraint_violation : GovernanceViolationKind
  sod_context_missing sod_dynamic_conflict sod_static_conflict : GovernanceViolationKind

-- The text `detail` is left out.
pub record GovernanceViolation : Type 0 where
  pub kind : GovernanceViolationKind
  pub rule_id : ℕ
  pub required_assurance_level : Option AssuranceLevel
  pub required_mfa : Option Bool
