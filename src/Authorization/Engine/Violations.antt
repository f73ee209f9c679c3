-- ===== src/Authorization/Engine/Violations.antt =====
-- What a denial reports of a violated governance rule.
use pyiamkit.Prelude.{ℕ, ◌≡◌, sym, subst, some, List}
use pyiamkit.Shared.{DateTime}
use pyiamkit.Authorization.RoleBinding.{RoleBinding}
use pyiamkit.Authorization.Requests.{
  AuthorizationRequest, GovernanceViolation, GovernanceViolationKind,
  authentication_context_missing, assurance_step_up_required, constraint_context_missing,
  constraint_violation, sod_context_missing, sod_dynamic_conflict, sod_static_conflict,
}
use pyiamkit.Authorization.Decisions.{
  AuthorizationReason, deny_authentication_context_missing, deny_step_up_required,
  deny_constraint_context_missing, deny_constraint_violation, deny_sod_context_missing,
  deny_sod_dynamic_conflict, deny_sod_static_conflict, AuthorizationDecision,
}
use pyiamkit.Authorization.Engine.Repositories.{Ports}
use pyiamkit.Authorization.Engine.{Denial, reason_for, evaluate_governance}
use pyiamkit.Authorization.Engine.Calls.{deny_decision}
use pyiamkit.Authorization.Engine.Reasons.{Bindings, Explains, Governs}

-- The reason codes of the kinds of violations.
pub data Names : GovernanceViolationKind → AuthorizationReason → Type 0 where
  no_context : Names authentication_context_missing deny_authentication_context_missing
  step_up : Names assurance_step_up_required deny_step_up_required
  no_constraint_context : Names constraint_context_missing deny_constraint_context_missing
  constrained : Names constraint_violation deny_constraint_violation
  no_sod_context : Names sod_context_missing deny_sod_context_missing
  dynamic_conflict : Names sod_dynamic_conflict deny_sod_dynamic_conflict
  static_conflict : Names sod_static_conflict deny_sod_static_conflict

reason_for-Names : (kind : GovernanceViolationKind) → Names kind (reason_for kind)
reason_for-Names authentication_context_missing = no_context
reason_for-Names assurance_step_up_required = step_up
reason_for-Names constraint_context_missing = no_constraint_context
reason_for-Names constraint_violation = constrained
reason_for-Names sod_context_missing = no_sod_context
reason_for-Names sod_dynamic_conflict = dynamic_conflict
reason_for-Names sod_static_conflict = static_conflict

module _ (ports : Ports) (request : AuthorizationRequest) (now : DateTime) where
  -- What a decision reports of the violation that the evaluators find on the active bindings: the
  -- rule and its requirements, under the reason code that belongs to the violation's kind.
  pub record Reports (d : AuthorizationDecision) (bs : List RoleBinding) (v : GovernanceViolation)
      : Type 0 where
    pub found : Bindings ports request now bs
    pub violated : evaluate_governance ports request bs ≡ some v
    pub rule : d.matched_rule_id ≡ some v.rule_id
    pub assurance : d.required_assurance_level ≡ v.required_assurance_level
    pub mfa : d.required_mfa ≡ v.required_mfa
    pub named : Names v.kind d.reason_code

  pub explained :
      (new_id : ℕ) (x : Denial)
      → Explains ports request now x.reason
      → Explains ports request now (deny_decision new_id now request x).reason_code
  unfolding deny_decision
  explained new_id x r = r

  pub denied-Reports :
      (new_id : ℕ) (x : Denial)
      → Governs ports request now x
      → (bs : List RoleBinding) × (v : GovernanceViolation) × Reports
          (deny_decision new_id now request x)
          bs
          v
  unfolding deny_decision
  denied-Reports new_id x (bs, v, found, violated, same, reason) = (
    bs,
    v,
    record {
      found = found;
      violated = violated;
      rule = rw same;
      assurance = rw same;
      mfa = rw same;
      named = subst (Names v.kind) (sym reason) (reason_for-Names v.kind);
    },
  )
