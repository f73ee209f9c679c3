-- ===== src/Tests/Data.antt =====
-- A small organisation: a Role that inherits a permission, a subject that holds it, and a request.
use pyiamkit.Prelude.{
  ℕ, ◌≡◌, refl, true, false, ◌&&◌, Option, none, some, List, [], ◌∷◌, Result, ok, In, ◌==◌,
  if◌then◌else◌, arith, strip,
}
use pyiamkit.Shared.{DateTime, Zone}
use pyiamkit.Identity.Values.{IdentityStatus}
use pyiamkit.Tenancy.Values.{TenantStatus, MembershipStatus, TenantScope}
use pyiamkit.Tenancy.Tenant.{Tenant, TenantArgs}
use pyiamkit.Tenancy.Membership.{Membership, MembershipArgs}
use pyiamkit.Tenancy.Membership
use pyiamkit.Authorization.Values.{
  audit_failure, PermissionCode, RoleStatus, RoleType, RoleBindingStatus, GrantSource,
  AuthorizationError,
}
use pyiamkit.Authentication.Values.{AssuranceLevel}
use pyiamkit.Authorization.Role.{Role, RoleArgs}
use pyiamkit.Authorization.RoleBinding.{RoleBinding, RoleBindingArgs}
use pyiamkit.Authorization.RoleBinding
use pyiamkit.Authorization.Hierarchy.{RoleRepository}
use pyiamkit.Authorization.Requests.{AuthorizationRequest}
use pyiamkit.Authorization.Governance.{
  AuthorizationConstraint, minimum_assurance, MutuallyExclusiveRolesRule,
}
use pyiamkit.Authorization.Engine.Repositories.{
  Ports, SodRules, IsActiveMembership, IsActiveBinding,
}
use pyiamkit.Authorization.Engine.{Grant}
use pyiamkit.Authorization.Engine.Calls.{AuditSink}

abbrev pub utc_at : ℕ → DateTime
utc_at n = record { instant = n; zone = Zone.utc }

abbrev pub noon : DateTime
noon = utc_at 100

abbrev pub evening : DateTime
evening = utc_at 200

abbrev pub reading : PermissionCode
reading = record { value = b'a' ∷ b'.' ∷ b'b' ∷ [] }

abbrev pub writing : PermissionCode
writing = record { value = b'a' ∷ b'.' ∷ b'c' ∷ [] }

abbrev pub scope : TenantScope
scope = record { tenant_id = 7 }

abbrev pub role_args : ℕ → List PermissionCode → List ℕ → RoleArgs
role_args n permissions parents = record {
  id = n;
  version = 0;
  name = b'r' ∷ [];
  role_type = RoleType.business;
  status = RoleStatus.active;
  tenant_id = some 7;
  assignable = true;
  sensitive = false;
  permissions = permissions;
  parent_role_ids = parents;
  created_at = utc_at 1;
  updated_at = utc_at 1;
}

-- The viewer may read; the editor is above nobody and has the viewer as its parent.
abbrev pub viewer : Role
viewer = record { args = role_args 1 (reading ∷ []) []; pending_events = [] }

abbrev pub editor : Role
editor = record { args = role_args 2 [] (1 ∷ []); pending_events = [] }

abbrev pub find_role : ℕ → Option Role
find_role n = if n == 1 then some viewer else if n == 2 then some editor else none

pub found_role : (n : ℕ) (r : Role) → find_role n ≡ some r → r.id ≡ n
found_role n r h = ground arith

abbrev pub two_roles : RoleRepository
two_roles = record { get = find_role; get_id = found_role }

abbrev pub member_args : MembershipArgs
member_args = record {
  id = 11;
  version = 1;
  identity_id = 5;
  tenant_id = 7;
  organization_id = none;
  status = MembershipStatus.active;
  source = b'm' ∷ [];
  created_at = utc_at 1;
  updated_at = utc_at 1;
  valid_from = utc_at 1;
  valid_until = some (utc_at 500);
}

abbrev pub member : Membership
member = record { args = member_args; pending_events = [] }

abbrev pub binding_args : RoleBindingArgs
binding_args = record {
  id = 21;
  version = 0;
  identity_id = 5;
  role_id = 2;
  tenant_id = 7;
  scope = scope;
  status = RoleBindingStatus.active;
  grant_source = GrantSource.direct;
  granted_by = none;
  justification = none;
  created_at = utc_at 1;
  updated_at = utc_at 1;
  valid_from = utc_at 1;
  valid_until = some (utc_at 400);
}

abbrev pub binding : RoleBinding
binding = record { args = binding_args; pending_events = [] }

abbrev pub firm_args : TenantArgs
firm_args = record {
  id = 7;
  version = 1;
  name = b'F' ∷ [];
  slug = b'f' ∷ [];
  status = TenantStatus.active;
  created_at = utc_at 1;
  updated_at = utc_at 1;
  metadata = [];
}

abbrev pub firm : Tenant
firm = record { args = firm_args; pending_events = [] }

abbrev pub request : AuthorizationRequest
request = record {
  subject_id = 5;
  tenant_id = 7;
  permission = reading;
  scope = scope;
  resource = none;
  authentication =
      some (record {
        assurance_level = AssuranceLevel.aal2;
        mfa = true;
        authenticated_at = utc_at 90;
      });
  correlation_id = none;
}

-- The same request for the permission that no Role has.
abbrev pub write_request : AuthorizationRequest
write_request = record request { permission = writing }

abbrev pub strong_enough : AuthorizationConstraint
strong_enough = minimum_assurance (record {
  id = 31;
  permission = reading;
  minimum_assurance = AssuranceLevel.aal2;
  require_mfa = true;
  tenant_id = none;
})

abbrev pub exclusive : MutuallyExclusiveRolesRule
exclusive = record {
  id = 41;
  name = b'x' ∷ [];
  first_role_id = 2;
  second_role_id = 3;
  tenant_id = none;
}

abbrev pub static_rules : SodRules
static_rules = record { list_static = λ _. exclusive ∷ []; list_dynamic = λ _ _. [] }

pub member_stripped : strip (b'm' ∷ []) ≡ b'm' ∷ []
unfolding strip
member_stripped = refl

abbrev pub find_member : ℕ → ℕ → DateTime → Result AuthorizationError (Option Membership)
find_member s t at =
    ok (if s == 5 && t == 7 && Membership.active_at at member_args then some member else none)

abbrev pub find_bindings : ℕ → ℕ → DateTime → Result AuthorizationError (List RoleBinding)
find_bindings s t at =
    ok (if s == 5 && t == 7 && RoleBinding.active_at at binding_args then binding ∷ [] else [])

pub member_found :
    (s t : ℕ) (at : DateTime) (m : Membership)
    → find_member s t at ≡ ok (some m)
    → IsActiveMembership s t at m
member_found s t at m h = ground (arith, member_stripped)

pub bindings_found :
    (s t : ℕ) (at : DateTime) (bs : List RoleBinding) (b : RoleBinding)
    → find_bindings s t at ≡ ok bs
    → In b bs
    → IsActiveBinding s t at b
bindings_found s t at bs b h i = ground (arith, i)

abbrev pub ports : Ports
ports = record {
  identity = λ n. if n == 5 then some IdentityStatus.active else none;
  tenant = λ n. if n == 7 then some firm else none;
  find_active = find_member;
  permission = λ p. some (record { code = p; description = []; sensitive = false });
  roles = two_roles;
  find_active_for_subject = find_bindings;
  max_depth = 3;
  list_for = some (λ _ _. strong_enough ∷ []);
  sod = some static_rules;
  membership_active = member_found;
  bindings_active = bindings_found;
}

abbrev pub grant : Grant
grant = record {
  membership = member;
  binding = binding;
  role = editor;
  path = editor ∷ viewer ∷ [];
}

-- An audit sink that takes every event, and one that is down.
abbrev pub taking : AuditSink
taking = some (λ e log. none)

abbrev pub down : AuditSink
down = some (λ e log. some (audit_failure 1))
