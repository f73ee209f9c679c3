-- ===== src/Operations/Effects.antt =====
-- src/pyiamkit/operations/mutations.py: the sets of event types at the head of the file.
use Prim.Native.String.{String}
use pyiamkit.Prelude.{Option, none, some, Text}
use pyiamkit.Identity.Values.{IdentityEventType}
use pyiamkit.Tenancy.Values.{TenancyEventType}
use pyiamkit.Authentication.Values.{AuthenticationEventType}
use pyiamkit.Authorization.Values.{AuthorizationCatalogEventType, GovernanceEventType}

-- `event_type`, by the enumeration that it is of.
pub data EventType : Type 0 where
  of_identity : IdentityEventType → EventType
  of_tenancy : TenancyEventType → EventType
  of_authentication : AuthenticationEventType → EventType
  of_catalog : AuthorizationCatalogEventType → EventType
  of_governance : GovernanceEventType → EventType
  of_other : Text → EventType

-- The sets at the head of the file, by what `_apply` does for their members; with the name, where
-- the event revokes something.
pub data Effect : Type 0 where
  identity_state tenant_state membership_state binding_state : Option String → Effect
  identity_authentication role_state global_state governance_state no_effect : Effect
  authentication_state : Option String → Effect

abbrev identity_effect : IdentityEventType → Effect
identity_effect IdentityEventType.identity_suspended = identity_state (some "IdentitySuspended")
identity_effect IdentityEventType.identity_disabled = identity_state (some "IdentityDisabled")
identity_effect IdentityEventType.identity_archived = identity_state (some "IdentityArchived")
identity_effect IdentityEventType.identity_created = identity_state none
identity_effect IdentityEventType.identity_activated = identity_state none
identity_effect IdentityEventType.identity_reactivated = identity_state none
identity_effect IdentityEventType.external_identity_linked = identity_authentication
identity_effect IdentityEventType.external_identity_unlinked = identity_authentication
identity_effect IdentityEventType.user_profile_updated = no_effect
identity_effect IdentityEventType.service_account_created = no_effect

abbrev tenancy_effect : TenancyEventType → Effect
tenancy_effect TenancyEventType.tenant_suspended = tenant_state (some "TenantSuspended")
tenancy_effect TenancyEventType.tenant_disabled = tenant_state (some "TenantDisabled")
tenancy_effect TenancyEventType.tenant_archived = tenant_state (some "TenantArchived")
tenancy_effect TenancyEventType.tenant_created = tenant_state none
tenancy_effect TenancyEventType.tenant_activated = tenant_state none
tenancy_effect TenancyEventType.tenant_reactivated = tenant_state none
tenancy_effect TenancyEventType.membership_suspended = membership_state (some "MembershipSuspended")
tenancy_effect TenancyEventType.membership_revoked = membership_state (some "MembershipRevoked")
tenancy_effect TenancyEventType.membership_expired = membership_state (some "MembershipExpired")
tenancy_effect TenancyEventType.membership_created = membership_state none
tenancy_effect TenancyEventType.membership_activated = membership_state none
tenancy_effect TenancyEventType.membership_reactivated = membership_state none

abbrev catalog_effect : AuthorizationCatalogEventType → Effect
catalog_effect AuthorizationCatalogEventType.role_binding_suspended =
    binding_state (some "RoleBindingSuspended")
catalog_effect AuthorizationCatalogEventType.role_binding_revoked =
    binding_state (some "RoleBindingRevoked")
catalog_effect AuthorizationCatalogEventType.role_binding_expired =
    binding_state (some "RoleBindingExpired")
catalog_effect AuthorizationCatalogEventType.role_assigned = binding_state none
catalog_effect AuthorizationCatalogEventType.role_binding_reactivated = binding_state none
catalog_effect AuthorizationCatalogEventType.permission_registered = global_state
catalog_effect _ = role_state

abbrev authentication_effect : AuthenticationEventType → Effect
authentication_effect AuthenticationEventType.session_revoked =
    authentication_state (some "SessionRevoked")
authentication_effect AuthenticationEventType.session_touched = no_effect
authentication_effect _ = authentication_state none

unfoldable pub effect_of : EventType → Effect
effect_of (of_identity t) = identity_effect t
effect_of (of_tenancy t) = tenancy_effect t
effect_of (of_authentication t) = authentication_effect t
effect_of (of_catalog t) = catalog_effect t
effect_of (of_governance t) = governance_state
effect_of (of_other t) = no_effect
