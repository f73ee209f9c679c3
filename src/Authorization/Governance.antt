-- ===== src/Authorization/Governance.antt =====
-- src/pyiamkit/authorization/governance.py: the evaluators of constraints and of separation of duties.
pub mod Decimals
pub mod Constraints
pub mod Duties
pub mod Registration
pub mod Registered
pub mod Exclusion
use pyiamkit.Prelude.{
  ℕ, Bool, true, false, not, ◌&&◌, ◌||◌, Option, none, some, List, [], ◌∷◌, Result, ok, err, ◌>>=◌,
  Text, text_beq, ltb, ◌==◌, contains, add, nat_eq, map_err, if◌then◌else◌,
}
use pyiamkit.Shared.{id_text}
use pyiamkit.Authentication.Values.{AssuranceLevel, assurance_rank}
use pyiamkit.Authorization.Values.{
  PermissionCode, RoleHierarchyError, AuthorizationError, static_sod_violation,
}
use pyiamkit.Authorization.Requests.{
  AttributeValue, ResourceDescriptor, get_attribute, AuthenticationEvidence, AuthorizationRequest,
  GovernanceViolation, GovernanceViolationKind, authentication_context_missing,
  assurance_step_up_required, constraint_context_missing, constraint_violation, sod_context_missing,
  sod_dynamic_conflict, sod_static_conflict,
}
use pyiamkit.Authorization.Role.{Role}
use pyiamkit.Authorization.RoleBinding.{RoleBinding}
use pyiamkit.Authorization.Hierarchy.{RoleRepository, HierarchyResult, resolve_roles}
use Decimals.{Decimal, parse_decimal, greater}

pub record NumericMaximumConstraint : Type 0 where
  pub id : ℕ
  pub permission : PermissionCode
  pub resource_attribute : Text
  pub maximum : Decimal
  pub tenant_id : Option ℕ

pub record ResourceAttributeEqualsConstraint : Type 0 where
  pub id : ℕ
  pub permission : PermissionCode
  pub resource_attribute : Text
  pub expected_value : Text
  pub tenant_id : Option ℕ

pub record MinimumAssuranceConstraint : Type 0 where
  pub id : ℕ
  pub permission : PermissionCode
  pub minimum_assurance : AssuranceLevel
  pub require_mfa : Bool
  pub tenant_id : Option ℕ

pub data AuthorizationConstraint : Type 0 where
  numeric_maximum : NumericMaximumConstraint → AuthorizationConstraint
  attribute_equals : ResourceAttributeEqualsConstraint → AuthorizationConstraint
  minimum_assurance : MinimumAssuranceConstraint → AuthorizationConstraint

pub record MutuallyExclusiveRolesRule : Type 0 where
  pub id : ℕ
  pub name : Text
  pub first_role_id : ℕ
  pub second_role_id : ℕ
  pub tenant_id : Option ℕ

pub record DistinctActorSodRule : Type 0 where
  pub id : ℕ
  pub name : Text
  pub permission : PermissionCode
  pub resource_attribute : Text
  pub tenant_id : Option ℕ

abbrev pub violation : GovernanceViolationKind → ℕ → GovernanceViolation
violation kind rule = record {
  kind = kind;
  rule_id = rule;
  required_assurance_level = none;
  required_mfa = none;
}

abbrev pub assurance_violation :
    GovernanceViolationKind → MinimumAssuranceConstraint → GovernanceViolation
assurance_violation kind rule = record {
  kind = kind;
  rule_id = rule.id;
  required_assurance_level = some rule.minimum_assurance;
  required_mfa = some rule.require_mfa;
}

-- `_evaluate_assurance`.
unfoldable pub evaluate_assurance :
    MinimumAssuranceConstraint → Option AuthenticationEvidence → Option GovernanceViolation
evaluate_assurance rule none = some (assurance_violation authentication_context_missing rule)
evaluate_assurance rule (some e) =
    if ltb (assurance_rank e.assurance_level) (assurance_rank rule.minimum_assurance)
      || (rule.require_mfa && not e.mfa)
    then some (assurance_violation assurance_step_up_required rule)
    else none

-- `value > rule.maximum`, where either conversion may raise `InvalidOperation`.
abbrev pub exceeds : Option Decimal → Decimal → Option Bool
exceeds none maximum = none
exceeds (some d) maximum = greater d maximum

-- `_evaluate_numeric`.
unfoldable pub evaluate_numeric :
    NumericMaximumConstraint → AttributeValue → Option GovernanceViolation
evaluate_numeric rule raw =
    if raw.is_bool
    then some (violation constraint_context_missing rule.id)
    else elim (exceeds (parse_decimal raw.text) rule.maximum) [
      | none ↦ some (violation constraint_context_missing rule.id)
      | some exceeded ↦ if exceeded then some (violation constraint_violation rule.id) else none
    ]

unfoldable pub evaluate_equals :
    ResourceAttributeEqualsConstraint → AttributeValue → Option GovernanceViolation
evaluate_equals rule raw =
    if text_beq raw.text rule.expected_value
    then none
    else some (violation constraint_violation rule.id)

-- The attribute that a rule reads, and the violation `missing` if there is no resource or no such
-- attribute.
abbrev pub attribute_of : Text → Option ResourceDescriptor → Option AttributeValue
attribute_of name none = none
attribute_of name (some r) = get_attribute name r.attributes

abbrev pub with_attribute :
    GovernanceViolation
    → Option AttributeValue
    → (AttributeValue → Option GovernanceViolation)
    → Option GovernanceViolation
with_attribute missing none test = some missing
with_attribute missing (some raw) test = test raw

-- One round of the loop of `ConstraintEvaluator.evaluate`.
unfoldable pub check_constraint :
    AuthorizationRequest → AuthorizationConstraint → Option GovernanceViolation
unfolding evaluate_assurance evaluate_numeric evaluate_equals
check_constraint request (minimum_assurance rule) = evaluate_assurance rule request.authentication
check_constraint request (numeric_maximum rule) =
    with_attribute (violation constraint_context_missing rule.id)
      (attribute_of rule.resource_attribute request.resource) (evaluate_numeric rule)
check_constraint request (attribute_equals rule) =
    with_attribute (violation constraint_context_missing rule.id)
      (attribute_of rule.resource_attribute request.resource) (evaluate_equals rule)

-- `DynamicSoDEvaluator.evaluate`, one round: the actor is the subject, or reads like it.
abbrev pub same_identity : Option ℕ → ℕ → Bool
same_identity none subject = false
same_identity (some n) subject = n == subject

unfoldable pub check_actor : ℕ → DistinctActorSodRule → AttributeValue → Option GovernanceViolation
check_actor subject rule actor =
    if same_identity actor.identity subject || text_beq actor.text (id_text subject)
    then some (violation sod_dynamic_conflict rule.id)
    else none

unfoldable pub check_duty : AuthorizationRequest → DistinctActorSodRule → Option GovernanceViolation
unfolding check_actor
check_duty request rule =
    with_attribute (violation sod_context_missing rule.id)
      (attribute_of rule.resource_attribute request.resource) (check_actor request.subject_id rule)

-- The loop of both evaluators: the first violation that a rule reports.
unfoldable pub first_violation :
    {R : Type 0} → (R → Option GovernanceViolation) → List R → Option GovernanceViolation
first_violation check [] = none
first_violation check (rule ∷ rest) = elim (check rule) [
  | some v ↦ some v
  | none ↦ first_violation check rest
]

-- `ConstraintEvaluator.evaluate` and `DynamicSoDEvaluator.evaluate`, on the rules that the
-- repository lists for the request.
unfoldable pub evaluate_constraints :
    List AuthorizationConstraint → AuthorizationRequest → Option GovernanceViolation
unfolding first_violation check_constraint
evaluate_constraints rules request = first_violation (check_constraint request) rules

unfoldable pub evaluate_duties :
    List DistinctActorSodRule → AuthorizationRequest → Option GovernanceViolation
unfolding first_violation check_duty
evaluate_duties rules request = first_violation (check_duty request) rules

-- `effective.update(role.id for role in roles)`.
abbrev pub add_role_ids : List Role → List ℕ → List ℕ
add_role_ids [] ids = ids
add_role_ids (r ∷ rs) ids = add_role_ids rs (add r.id ids)

-- One round of `_find_conflict`.
abbrev pub check_conflict : List ℕ → MutuallyExclusiveRolesRule → Option GovernanceViolation
check_conflict ids rule =
    if contains rule.first_role_id ids && contains rule.second_role_id ids
    then some (violation sod_static_conflict rule.id)
    else none

unfoldable pub find_conflict : List MutuallyExclusiveRolesRule → List ℕ → Option GovernanceViolation
unfolding first_violation
find_conflict rules ids = first_violation (check_conflict ids) rules

module _ (roles : RoleRepository) (max_depth : ℕ) where
  -- `_effective_role_ids`, from the identifiers that are there.
  unfoldable pub effective_role_ids : List RoleBinding → List ℕ → HierarchyResult (List ℕ)
  effective_role_ids [] ids = ok ids
  effective_role_ids (b ∷ bs) ids = do
    resolved ← resolve_roles roles max_depth b.role_id
    effective_role_ids bs (add_role_ids resolved ids)

  -- `detect_runtime`, on the static rules that the repository lists for the tenant.
  unfoldable pub detect_runtime :
      List MutuallyExclusiveRolesRule → List RoleBinding → Option GovernanceViolation
  unfolding find_conflict
  detect_runtime [] bindings = none
  detect_runtime (rule ∷ rules) bindings = elim (effective_role_ids bindings []) [
    | err _ ↦ some (violation sod_static_conflict rule.id)
    | ok ids ↦ find_conflict (rule ∷ rules) ids
  ]

  -- `ensure_assignment_allowed`.
  candidate_ids : ℕ → List RoleBinding → HierarchyResult (List ℕ)
  candidate_ids candidate bindings = do
    ids ← effective_role_ids bindings []
    resolved ← resolve_roles roles max_depth candidate
    ok (add_role_ids resolved ids)

  unfoldable pub ensure_assignment_allowed :
      List MutuallyExclusiveRolesRule → ℕ → List RoleBinding → Result AuthorizationError (Unit {0})
  unfolding candidate_ids find_conflict
  ensure_assignment_allowed rules candidate bindings = do
    ids ← map_err (λ _. static_sod_violation candidate) (candidate_ids candidate bindings)
    elim (find_conflict rules ids) [ none ↦ ok tt | some v ↦ err (static_sod_violation v.rule_id) ]
