-- ===== src/Authorization/Governance/Registration.antt =====
-- src/pyiamkit/authorization/governance.py: AccessGovernanceApplicationService, with the checks that
-- the rules of domain/governance.py make of themselves. `RoleRepository` is any; the other
-- repositories are the in-memory ones. The new identifier and the clock's moment are arguments.
use pyiamkit.Prelude.{
  ℕ, Bool, not, Option, List, [], ◌∷◌, ◌++◌, Result, ok, ◌>>=◌, ◌>>◌, guard, or_raise, ◌==◌, Text,
  strip, nonempty, Unicode,
}
use pyiamkit.Shared.{DateTime, DomainEvent, MetaValue, id_or_null}
use pyiamkit.Authentication.Values.{AssuranceLevel}
use pyiamkit.Authorization.Values.{
  PermissionCode, parse, AuthorizationError, value_error, permission_not_found, role_not_found,
  invalid_governance_rule, GovernanceEventType, constraint_registered, minimum_assurance_registered,
  static_rule_registered, dynamic_rule_registered,
}
use pyiamkit.Authorization.Role.{Role}
use pyiamkit.Authorization.Hierarchy.{RoleRepository, edge_allowed}
use pyiamkit.Authorization.Governance.Decimals.{Decimal}
use pyiamkit.Authorization.Governance.{
  NumericMaximumConstraint, ResourceAttributeEqualsConstraint, AuthorizationConstraint,
  numeric_maximum, attribute_equals, minimum_assurance, MutuallyExclusiveRolesRule,
  DistinctActorSodRule,
}
use pyiamkit.Authorization.Memory.Rules.{
  Catalog, get_permission, Constraints, save_constraint, constraint_id, SodStore, save_static,
  save_dynamic,
}

-- A stripped text that must not be empty.
unfoldable pub require_text : Text → Result AuthorizationError Text
require_text s = do guard (nonempty (strip s)) value_error; ok (strip s)

-- The `__post_init__` of the rules.
unfoldable pub make_numeric :
    NumericMaximumConstraint → Result AuthorizationError NumericMaximumConstraint
unfolding require_text
make_numeric r = do
  attribute ← require_text r.resource_attribute
  ok (record r { resource_attribute = attribute })

unfoldable pub make_equals :
    ResourceAttributeEqualsConstraint → Result AuthorizationError ResourceAttributeEqualsConstraint
unfolding require_text
make_equals r = do
  attribute ← require_text r.resource_attribute
  ok (record r { resource_attribute = attribute; expected_value = strip r.expected_value })

unfoldable pub make_exclusive :
    MutuallyExclusiveRolesRule → Result AuthorizationError MutuallyExclusiveRolesRule
unfolding require_text
make_exclusive r = do
  name ← require_text r.name
  guard (not (r.first_role_id == r.second_role_id)) value_error
  ok (record r { name = name })

unfoldable pub make_distinct_actor :
    DistinctActorSodRule → Result AuthorizationError DistinctActorSodRule
unfolding require_text
make_distinct_actor r = do
  name ← require_text r.name
  attribute ← require_text r.resource_attribute
  ok (record r { name = name; resource_attribute = attribute })

-- The two repositories that are written, and the events that the sink was given.
pub record State : Type 0 where
  pub constraints : Constraints
  pub sod : SodStore
  pub published : List (DomainEvent GovernanceEventType)

-- `_publish`.
abbrev pub rule_event :
    GovernanceEventType → ℕ → Option ℕ → DateTime → DomainEvent GovernanceEventType
rule_event kind rule tenant now = record {
  event_type = kind;
  occurred_at = now;
  metadata = ("rule_id", MetaValue.id rule) ∷ ("tenant_id", id_or_null tenant) ∷ [];
}

-- What the three methods that register a constraint are given, but for the permission and the tenant.
pub data Limit : Type 0 where
  maximum_of : Text → Decimal → Limit
  value_of : Text → Text → Limit
  assurance_of : AssuranceLevel → Bool → Limit

-- The constructor that each of them calls.
unfoldable pub make_constraint :
    Limit → ℕ → PermissionCode → Option ℕ → Result AuthorizationError AuthorizationConstraint
unfolding make_numeric make_equals
make_constraint (maximum_of attribute maximum) new_id code tenant = do
  rule ← make_numeric (record {
    id = new_id;
    permission = code;
    resource_attribute = attribute;
    maximum = maximum;
    tenant_id = tenant;
  })
  ok (numeric_maximum rule)
make_constraint (value_of attribute value) new_id code tenant = do
  rule ← make_equals (record {
    id = new_id;
    permission = code;
    resource_attribute = attribute;
    expected_value = value;
    tenant_id = tenant;
  })
  ok (attribute_equals rule)
make_constraint (assurance_of level mfa) new_id code tenant = ok (
    minimum_assurance (record {
      id = new_id;
      permission = code;
      minimum_assurance = level;
      require_mfa = mfa;
      tenant_id = tenant;
    }))

abbrev pub limit_event : Limit → GovernanceEventType
limit_event (maximum_of _ _) = constraint_registered
limit_event (value_of _ _) = constraint_registered
limit_event (assurance_of _ _) = minimum_assurance_registered

module _ (u : Unicode) (permissions : Catalog) where
  -- `_require_permission`.
  unfoldable pub require_permission : Text → Result AuthorizationError PermissionCode
  require_permission permission = do
    code ← parse u permission
    known ← or_raise (get_permission code permissions) (permission_not_found code)
    ok code

  -- `register_numeric_maximum`, `register_resource_attribute_equals`, `register_minimum_assurance`.
  unfoldable pub register_constraint :
      Limit
      → Text
      → Option ℕ
      → ℕ
      → DateTime
      → State
      → Result AuthorizationError (AuthorizationConstraint × State)
  unfolding require_permission make_constraint save_constraint
  register_constraint limit permission tenant new_id now st = do
    code ← require_permission permission
    rule ← make_constraint limit new_id code tenant
    ok (
      rule,
      record st {
        constraints = save_constraint rule st.constraints;
        published =
            st.published ++ rule_event (limit_event limit) (constraint_id rule) tenant now ∷ [];
      },
    )

  unfoldable pub register_distinct_actor :
      Text
      → Text
      → Text
      → Option ℕ
      → ℕ
      → DateTime
      → State
      → Result AuthorizationError (DistinctActorSodRule × State)
  unfolding require_permission make_distinct_actor save_dynamic
  register_distinct_actor permission name attribute tenant new_id now st = do
    code ← require_permission permission
    rule ← make_distinct_actor (record {
      id = new_id;
      name = name;
      permission = code;
      resource_attribute = attribute;
      tenant_id = tenant;
    })
    ok (
      rule,
      record st {
        sod = save_dynamic rule st.sod;
        published = st.published ++ rule_event dynamic_rule_registered rule.id tenant now ∷ [];
      },
    )

module _ (roles : RoleRepository) where
  -- `_require_role`.
  unfoldable pub require_role : ℕ → Result AuthorizationError Role
  require_role n = or_raise (roles.get n) (role_not_found n)

  -- `_validate_rule_role_tenant` asks of a rule and a Role what an edge asks of a child and a parent.
  unfoldable pub register_exclusive :
      Text
      → ℕ
      → ℕ
      → Option ℕ
      → ℕ
      → DateTime
      → State
      → Result AuthorizationError (MutuallyExclusiveRolesRule × State)
  unfolding require_role make_exclusive save_static
  register_exclusive name first_role_id second_role_id tenant new_id now st = do
    first ← require_role first_role_id
    second ← require_role second_role_id
    guard (edge_allowed tenant first.tenant_id) invalid_governance_rule
    guard (edge_allowed tenant second.tenant_id) invalid_governance_rule
    rule ← make_exclusive (record {
      id = new_id;
      name = name;
      first_role_id = first_role_id;
      second_role_id = second_role_id;
      tenant_id = tenant;
    })
    ok (
      rule,
      record st {
        sod = save_static rule st.sod;
        published = st.published ++ rule_event static_rule_registered rule.id tenant now ∷ [];
      },
    )
