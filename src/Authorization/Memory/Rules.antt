-- ===== src/Authorization/Memory/Rules.antt =====
-- src/pyiamkit/authorization/adapters/memory.py: InMemoryPermissionCatalogRepository,
-- InMemoryConstraintRepository and InMemorySoDRuleRepository. Their values are immutable, and are
-- kept as they are.
use pyiamkit.Prelude.{
  ℕ, Bool, true, ◌&&◌, Option, none, some, List, [], ◌∷◌, ◌==◌, insert, values, filter,
  if◌then◌else◌,
}
use pyiamkit.Authorization.Values.{PermissionCode, permission_beq, Permission}
use pyiamkit.Authorization.Governance.{
  AuthorizationConstraint, numeric_maximum, attribute_equals, minimum_assurance,
  MutuallyExclusiveRolesRule, DistinctActorSodRule,
}

-- The catalog: a dictionary by codes, each of which is in its Permission.
abbrev pub Catalog : Type 0
Catalog = List Permission

unfoldable pub get_permission : PermissionCode → Catalog → Option Permission
get_permission code [] = none
get_permission code (p ∷ ps) = if permission_beq p.code code then some p else get_permission code ps

unfoldable pub save_permission : Permission → Catalog → Catalog
save_permission p [] = p ∷ []
save_permission p (q ∷ qs) =
    if permission_beq q.code p.code then p ∷ qs else q ∷ save_permission p qs

abbrev pub constraint_id : AuthorizationConstraint → ℕ
constraint_id (numeric_maximum r) = r.id
constraint_id (attribute_equals r) = r.id
constraint_id (minimum_assurance r) = r.id

abbrev pub constraint_permission : AuthorizationConstraint → PermissionCode
constraint_permission (numeric_maximum r) = r.permission
constraint_permission (attribute_equals r) = r.permission
constraint_permission (minimum_assurance r) = r.permission

abbrev pub constraint_tenant : AuthorizationConstraint → Option ℕ
constraint_tenant (numeric_maximum r) = r.tenant_id
constraint_tenant (attribute_equals r) = r.tenant_id
constraint_tenant (minimum_assurance r) = r.tenant_id

-- `rule.tenant_id in {None, tenant_id}`.
abbrev pub applies_in : ℕ → Option ℕ → Bool
applies_in tenant none = true
applies_in tenant (some t) = t == tenant

abbrev pub Constraints : Type 0
Constraints = List (ℕ × AuthorizationConstraint)

unfoldable pub save_constraint : AuthorizationConstraint → Constraints → Constraints
save_constraint c items = insert (constraint_id c) c items

-- The condition of `list_for`.
abbrev pub is_for : PermissionCode → ℕ → AuthorizationConstraint → Bool
is_for permission tenant c =
    permission_beq (constraint_permission c) permission && applies_in tenant (constraint_tenant c)

unfoldable pub list_for : PermissionCode → ℕ → Constraints → List AuthorizationConstraint
list_for permission tenant items = filter (is_for permission tenant) (values items)

-- `_static` and `_dynamic`.
pub record SodStore : Type 0 where
  pub static : List (ℕ × MutuallyExclusiveRolesRule)
  pub dynamic : List (ℕ × DistinctActorSodRule)

unfoldable pub save_static : MutuallyExclusiveRolesRule → SodStore → SodStore
save_static r s = record s { static = insert r.id r s.static }

unfoldable pub save_dynamic : DistinctActorSodRule → SodStore → SodStore
save_dynamic r s = record s { dynamic = insert r.id r s.dynamic }

unfoldable pub list_static : ℕ → SodStore → List MutuallyExclusiveRolesRule
list_static tenant s =
    filter (λ (r : MutuallyExclusiveRolesRule). applies_in tenant r.tenant_id) (values s.static)

unfoldable pub list_dynamic : PermissionCode → ℕ → SodStore → List DistinctActorSodRule
list_dynamic permission tenant s =
    filter
      (λ (r : DistinctActorSodRule).
        permission_beq r.permission permission && applies_in tenant r.tenant_id)
      (values s.dynamic)
