-- ===== src/Authorization/Engine.antt =====
-- src/pyiamkit/authorization/engine.py: `AuthorizationEngine.authorize`. Each `return self._deny(…)` is
-- an early exit of `evaluate`; Calls makes the decision of it and records that.
pub mod Repositories
pub mod Grants
pub mod Calls
pub mod Soundness
pub mod Outcomes
pub mod Reasons
pub mod Violations
pub mod Sink
pub mod Events
pub mod Denials
pub mod Audit
pub mod Completeness
use pyiamkit.Prelude.{
  ℕ, Bool, true, false, ◌&&◌, Option, none, some, List, [], ◌∷◌, ◌++◌, Result, ok, err, ◌>>=◌, ◌>>◌,
  guard, or_raise, map_err, filter, map, ltb, leb, ◌==◌, length, if◌then◌else◌,
}
use pyiamkit.Shared.{DateTime, before}
use pyiamkit.Identity.Values.{IdentityStatus}
use pyiamkit.Identity.Values
use pyiamkit.Tenancy.Values.{scope_eq}
use pyiamkit.Tenancy.Tenant
use pyiamkit.Tenancy.Membership.{Membership}
use pyiamkit.Authorization.Values.{RoleHierarchyError, AuthorizationError}
use pyiamkit.Authorization.Role.{Role}
use pyiamkit.Authorization.Role
use pyiamkit.Authorization.RoleBinding.{RoleBinding}
use pyiamkit.Authorization.Hierarchy.{permission_path}
use pyiamkit.Authorization.Requests.{
  AuthorizationRequest, GovernanceViolation, GovernanceViolationKind,
  authentication_context_missing, assurance_step_up_required, constraint_context_missing,
  constraint_violation, sod_context_missing, sod_dynamic_conflict, sod_static_conflict,
}
use pyiamkit.Authorization.Governance.{detect_runtime, evaluate_duties, evaluate_constraints}
use pyiamkit.Authorization.Decisions
use pyiamkit.Authorization.Decisions.{
  AuthorizationReason, ExplanationStep, AuthorizationDecision, DecisionAuditEvent, allow, deny,
  allow_inherited_role_permission_match, allow_role_permission_match,
  deny_authentication_context_missing, deny_constraint_context_missing, deny_constraint_violation,
  deny_step_up_required, deny_membership_not_found, deny_no_active_binding,
  deny_permission_not_granted, deny_permission_not_registered, deny_role_hierarchy_invalid,
  deny_role_tenant_mismatch, deny_role_unavailable, deny_scope_mismatch, deny_sod_context_missing,
  deny_sod_dynamic_conflict, deny_sod_static_conflict, deny_subject_inactive,
  deny_subject_not_found, deny_tenant_inactive, deny_tenant_not_found, check_decision, audit_event,
  allowed, ExplanationLevel, DecisionExplanation, explanation,
}
use Repositories.{Ports, SodRules}

-- The arguments of a `_deny`.
pub record Denial : Type 0 where
  pub reason : AuthorizationReason
  pub violation : Option GovernanceViolation
  pub explanation : List ExplanationStep

-- Why `authorize` ends before its last candidate: it denies, or an exception passes through it.
pub data Stop : Type 0 where
  denied : Denial → Stop
  raised : AuthorizationError → Stop

-- A candidate that is allowed: the binding, its Role, and the path to the permission.
pub record Grant : Type 0 where
  pub membership : Membership
  pub binding : RoleBinding
  pub role : Role
  pub path : List Role

abbrev pub deny_with : AuthorizationReason → List ExplanationStep → Stop
deny_with reason explanation =
    denied (record { reason = reason; violation = none; explanation = explanation })

abbrev pub deny_for : AuthorizationReason → Stop
deny_for reason = deny_with reason []

-- `_reason_for_violation`.
abbrev pub reason_for : GovernanceViolationKind → AuthorizationReason
reason_for authentication_context_missing = deny_authentication_context_missing
reason_for assurance_step_up_required = deny_step_up_required
reason_for constraint_context_missing = deny_constraint_context_missing
reason_for constraint_violation = deny_constraint_violation
reason_for sod_context_missing = deny_sod_context_missing
reason_for sod_dynamic_conflict = deny_sod_dynamic_conflict
reason_for sod_static_conflict = deny_sod_static_conflict

-- `sorted(bindings, key=lambda item: str(item.id))`; the texts are ordered as the numbers are.
abbrev insert_binding : RoleBinding → List RoleBinding → List RoleBinding
insert_binding b [] = b ∷ []
insert_binding b (c ∷ cs) = if leb b.id c.id then b ∷ c ∷ cs else c ∷ insert_binding b cs

unfoldable pub sort_bindings : List RoleBinding → List RoleBinding
sort_bindings [] = []
sort_bindings (b ∷ bs) = insert_binding b (sort_bindings bs)

abbrev pub non_empty : List RoleBinding → Bool
non_empty [] = false
non_empty (_ ∷ _) = true

-- `not (role.tenant_id is not None and role.tenant_id != request.tenant_id)`.
abbrev pub role_in_tenant : Option ℕ → ℕ → Bool
role_in_tenant none tenant = true
role_in_tenant (some t) tenant = t == tenant

-- `first if first is not None else rest`.
abbrev or_next :
    Option GovernanceViolation → Option GovernanceViolation → Option GovernanceViolation
or_next (some v) rest = some v
or_next none rest = rest

module _ (ports : Ports) where
  -- The three evaluators; one without a repository reports nothing.
  unfoldable pub static_violation :
      AuthorizationRequest → List RoleBinding → Option GovernanceViolation
  static_violation request bindings = elim ports.sod [
    | none ↦ none
    | some sod ↦
        detect_runtime ports.roles ports.max_depth (sod.list_static request.tenant_id) bindings
  ]

  unfoldable pub dynamic_violation : AuthorizationRequest → Option GovernanceViolation
  dynamic_violation request = elim ports.sod [
    | none ↦ none
    | some sod ↦ evaluate_duties (sod.list_dynamic request.permission request.tenant_id) request
  ]

  unfoldable pub constraint_violation_of : AuthorizationRequest → Option GovernanceViolation
  constraint_violation_of request = elim ports.list_for [
    | none ↦ none
    | some list ↦ evaluate_constraints (list request.permission request.tenant_id) request
  ]

  -- `_evaluate_governance`.
  unfoldable pub evaluate_governance :
      AuthorizationRequest → List RoleBinding → Option GovernanceViolation
  evaluate_governance request bindings =
      or_next (static_violation request bindings)
        (or_next (dynamic_violation request) (constraint_violation_of request))

  -- What follows a path in the loop: the governance rules, and then the grant.
  unfoldable pub grant_path :
      AuthorizationRequest
      → List RoleBinding
      → Membership
      → RoleBinding
      → Role
      → List Role
      → Result Stop Grant
  grant_path request bindings membership b role path = elim (evaluate_governance request bindings) [
    | none ↦ ok (record { membership = membership; binding = b; role = role; path = path })
    | some v ↦ err (
        denied (record {
          reason = reason_for v.kind;
          violation = some v;
          explanation =
              ExplanationStep.binding b.id
              ∷ ExplanationStep.role role.id
              ∷ ExplanationStep.rule v.rule_id
              ∷ ExplanationStep.governance v.kind
              ∷ [];
        }))
  ]

  -- The checks of one candidate, up to the search for a path.
  unfoldable pub candidate :
      AuthorizationRequest → RoleBinding → Result Stop (Role × Option (List Role))
  candidate request b = do
    let unavailable = deny_with deny_role_unavailable (ExplanationStep.binding b.id ∷ [])
    role ← or_raise (ports.roles.get b.role_id) unavailable
    guard (Role.is_active role.status) unavailable
    let about = ExplanationStep.binding b.id ∷ ExplanationStep.role role.id ∷ []
    guard (role_in_tenant role.tenant_id request.tenant_id)
        (deny_with deny_role_tenant_mismatch about)
    path ←
        map_err
          (λ e.
            deny_with deny_role_hierarchy_invalid (about ++ ExplanationStep.hierarchy_error e ∷ []))
          (permission_path ports.roles ports.max_depth role.id request.permission)
    ok (role, path)

  -- The loop over the candidates; `bindings` are all active bindings.
  unfoldable pub try_bindings :
      AuthorizationRequest → List RoleBinding → Membership → List RoleBinding → Result Stop Grant
  try_bindings request bindings membership [] = err (deny_for deny_permission_not_granted)
  try_bindings request bindings membership (b ∷ bs) = do
    (role, path) ← candidate request b
    elim path [
      | none ↦ try_bindings request bindings membership bs
      | some found ↦ grant_path request bindings membership b role found
    ]

  abbrev scoped : AuthorizationRequest → List RoleBinding → List RoleBinding
  scoped request = filter (λ b. scope_eq b.scope request.scope)

  -- `authorize` up to the making of its decision.
  unfoldable pub evaluate : AuthorizationRequest → DateTime → Result Stop Grant
  evaluate request now = do
    status ← or_raise (ports.identity request.subject_id) (deny_for deny_subject_not_found)
    guard (Values.is_active status) (deny_for deny_subject_inactive)
    tenant ← or_raise (ports.tenant request.tenant_id) (deny_for deny_tenant_not_found)
    guard (Tenant.is_active tenant.status) (deny_for deny_tenant_inactive)
    found ← map_err raised (ports.find_active request.subject_id request.tenant_id now)
    membership ← or_raise found (deny_for deny_membership_not_found)
    permission ←
        or_raise (ports.permission request.permission) (deny_for deny_permission_not_registered)
    bindings ←
        map_err raised (ports.find_active_for_subject request.subject_id request.tenant_id now)
    guard (non_empty bindings) (deny_for deny_no_active_binding)
    guard (non_empty (scoped request bindings)) (deny_for deny_scope_mismatch)
    try_bindings request bindings membership (sort_bindings (scoped request bindings))
