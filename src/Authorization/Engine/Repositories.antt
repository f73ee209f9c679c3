-- ===== src/Authorization/Engine/Repositories.antt =====
-- What the engine takes from its repositories, with what they promise of their answers. A call that
-- may raise (the clock's moment is checked by `is_active`) returns a result.
use pyiamkit.Prelude.{ℕ, ◌≡◌, true, Option, some, List, Result, ok, In}
use pyiamkit.Shared.{DateTime}
use pyiamkit.Identity.Values.{IdentityStatus}
use pyiamkit.Tenancy.Tenant.{Tenant}
use pyiamkit.Tenancy.Membership.{Membership}
use pyiamkit.Tenancy.Membership
use pyiamkit.Tenancy.Membership.Lifecycle
use pyiamkit.Authorization.Values.{PermissionCode, Permission, AuthorizationError}
use pyiamkit.Authorization.RoleBinding.{RoleBinding}
use pyiamkit.Authorization.RoleBinding
use pyiamkit.Authorization.RoleBinding.Lifecycle as BindingLifecycle
use pyiamkit.Authorization.Hierarchy.{RoleRepository}
use pyiamkit.Authorization.Governance.{
  AuthorizationConstraint, MutuallyExclusiveRolesRule, DistinctActorSodRule,
}

-- `list_static` and `list_dynamic` of the port SoDRuleRepository.
pub record SodRules : Type 0 where
  pub list_static : ℕ → List MutuallyExclusiveRolesRule
  pub list_dynamic : PermissionCode → ℕ → List DistinctActorSodRule

-- A Membership that `find_active` returns.
pub record IsActiveMembership (subject tenant : ℕ) (at : DateTime) (m : Membership) : Type 0 where
  pub valid : Lifecycle.IsValid m.args
  pub of_subject : m.identity_id ≡ subject
  pub in_tenant : m.tenant_id ≡ tenant
  pub active : Membership.active_at at m.args ≡ true

-- A RoleBinding that `find_active_for_subject` returns.
pub record IsActiveBinding (subject tenant : ℕ) (at : DateTime) (b : RoleBinding) : Type 0 where
  pub valid : BindingLifecycle.IsValid b.args
  pub of_subject : b.identity_id ≡ subject
  pub in_tenant : b.tenant_id ≡ tenant
  pub active : RoleBinding.active_at at b.args ≡ true

pub record Ports : Type 0 where
  -- `identities.get`, by the status of the Identity.
  pub identity : ℕ → Option IdentityStatus
  pub tenant : ℕ → Option Tenant
  pub find_active : ℕ → ℕ → DateTime → Result AuthorizationError (Option Membership)
  pub permission : PermissionCode → Option Permission
  pub roles : RoleRepository
  pub find_active_for_subject : ℕ → ℕ → DateTime → Result AuthorizationError (List RoleBinding)
  pub max_depth : ℕ
  pub list_for : Option (PermissionCode → ℕ → List AuthorizationConstraint)
  pub sod : Option SodRules
  pub membership_active :
      (subject tenant : ℕ) (at : DateTime) (m : Membership)
      → find_active subject tenant at ≡ ok (some m)
      → IsActiveMembership subject tenant at m
  pub bindings_active :
      (subject tenant : ℕ) (at : DateTime) (bs : List RoleBinding) (b : RoleBinding)
      → find_active_for_subject subject tenant at ≡ ok bs
      → In b bs
      → IsActiveBinding subject tenant at b
