-- ===== src/Authorization/Decisions.antt =====
-- src/pyiamkit/authorization/domain/decision.py: results, reasons and decisions, and audit.py: the
-- record that an audit sink gets of a decision.
use Prim.Native.String.{String}
use pyiamkit.Prelude.{
  ℕ, Bool, true, false, Option, none, some, List, [], ◌∷◌, ◌++◌, Result, ok, ◌>>◌, guard, Text,
}
use pyiamkit.Shared.{DateTime, MetaValue, require_utc, require_utc_or_none, before_end}
use pyiamkit.Tenancy.Values.{TenantScope}
use pyiamkit.Authentication.Values.{AssuranceLevel}
use pyiamkit.Authorization.Values.{
  PermissionCode, RoleHierarchyError, AuthorizationError, value_error,
}
use pyiamkit.Authorization.Requests.{ResourceDescriptor, GovernanceViolationKind}

pub data AuthorizationResult : Type 0 where
  allow deny : AuthorizationResult

pub data AuthorizationReason : Type 0 where
  allow_inherited_role_permission_match allow_role_permission_match : AuthorizationReason
  deny_authentication_context_missing deny_constraint_context_missing : AuthorizationReason
  deny_constraint_violation deny_step_up_required deny_membership_not_found : AuthorizationReason
  deny_no_active_binding deny_permission_not_granted : AuthorizationReason
  deny_permission_not_registered deny_role_hierarchy_invalid : AuthorizationReason
  deny_role_tenant_mismatch deny_role_unavailable deny_scope_mismatch : AuthorizationReason
  deny_sod_context_missing deny_sod_dynamic_conflict deny_sod_static_conflict : AuthorizationReason
  deny_subject_inactive deny_subject_not_found deny_tenant_inactive : AuthorizationReason
  deny_tenant_not_found : AuthorizationReason

-- The texts of an explanation path, by what they are made from.
pub data ExplanationStep : Type 0 where
  subject tenant binding role rule : ℕ → ExplanationStep
  permission : PermissionCode → ExplanationStep
  governance : GovernanceViolationKind → ExplanationStep
  hierarchy_error : RoleHierarchyError → ExplanationStep
  reason : AuthorizationReason → ExplanationStep
  result : AuthorizationResult → ExplanationStep
  text : Text → ExplanationStep

pub record AuthorizationDecision : Type 0 where
  pub result : AuthorizationResult
  pub reason_code : AuthorizationReason
  pub subject_id : ℕ
  pub tenant_id : ℕ
  pub permission : PermissionCode
  pub scope : TenantScope
  pub evaluated_at : DateTime
  pub id : ℕ
  pub valid_until : Option DateTime
  pub matched_membership_id : Option ℕ
  pub bound_role_id : Option ℕ
  pub matched_binding_id : Option ℕ
  pub matched_role_id : Option ℕ
  pub matched_rule_id : Option ℕ
  pub required_assurance_level : Option AssuranceLevel
  pub required_mfa : Option Bool
  pub resource : Option ResourceDescriptor
  pub correlation_id : Option Text
  pub explanation_path : List ExplanationStep

-- `AuthorizationDecision.__post_init__`.
unfoldable pub check_decision :
    AuthorizationDecision → Result AuthorizationError AuthorizationDecision
check_decision d = do
  require_utc value_error d.evaluated_at
  require_utc_or_none value_error d.valid_until
  guard (before_end d.evaluated_at d.valid_until) value_error
  ok d

abbrev pub allowed : AuthorizationDecision → Bool
allowed d = elim d.result [ allow ↦ true | deny ↦ false ]

abbrev pub step_up_required : AuthorizationDecision → Bool
step_up_required d = elim d.reason_code [ deny_step_up_required ↦ true | _ ↦ false ]

pub data ExplanationLevel : Type 0 where
  summary detailed : ExplanationLevel

-- The two fixed summary texts follow `allowed`.
pub record DecisionExplanation : Type 0 where
  pub decision_id : ℕ
  pub is_allowed : Bool
  pub reason_code : AuthorizationReason
  pub details : List ExplanationStep

abbrev details_at : ExplanationLevel → List ExplanationStep → List ExplanationStep
details_at summary path = []
details_at detailed path = path

-- `AuthorizationDecision.explanation(level)`.
unfoldable pub explanation : ExplanationLevel → AuthorizationDecision → DecisionExplanation
explanation level d = record {
  decision_id = d.id;
  is_allowed = allowed d;
  reason_code = d.reason_code;
  details = details_at level d.explanation_path;
}

pub data AuditOutcome : Type 0 where
  allowed_outcome denied_outcome : AuditOutcome

-- The fields of an AuditEvent that differ from decision to decision.
pub record DecisionAuditEvent : Type 0 where
  pub occurred_at : DateTime
  pub actor_id : ℕ
  pub subject_id : ℕ
  pub tenant_id : ℕ
  pub action : PermissionCode
  pub resource_type : Option Text
  pub resource_id : Option Text
  pub outcome : AuditOutcome
  pub reason_code : AuthorizationReason
  pub correlation_id : Option Text
  pub metadata : List (String × MetaValue)

abbrev pub entry {ℓ} :
    {A : Type ℓ} → String → (A → MetaValue) → Option A → List (String × MetaValue)
entry key f none = []
entry key f (some a) = (key, f a) ∷ []

abbrev pub level_label : AssuranceLevel → String
level_label AssuranceLevel.aal1 = "aal1"
level_label AssuranceLevel.aal2 = "aal2"
level_label AssuranceLevel.aal3 = "aal3"

abbrev pub type_of : Option ResourceDescriptor → Option Text
type_of none = none
type_of (some r) = some r.resource_type

abbrev pub id_of : Option ResourceDescriptor → Option Text
id_of none = none
id_of (some r) = some r.resource_id

-- `AuthorizationDecisionAuditRecorder.record`, the event that it appends. The event's own checks pass,
-- since a decision has a moment in UTC and the type of the event is a fixed text.
unfoldable pub audit_event : AuthorizationDecision → DecisionAuditEvent
audit_event d = record {
  occurred_at = d.evaluated_at;
  actor_id = d.subject_id;
  subject_id = d.subject_id;
  tenant_id = d.tenant_id;
  action = d.permission;
  resource_type = type_of d.resource;
  resource_id = id_of d.resource;
  outcome = elim d.result [ allow ↦ allowed_outcome | deny ↦ denied_outcome ];
  reason_code = d.reason_code;
  correlation_id = d.correlation_id;
  metadata =
      ("decision_id", MetaValue.id d.id)
      ∷ (entry "bound_role_id" MetaValue.id d.bound_role_id
          ++ (entry "matched_binding_id" MetaValue.id d.matched_binding_id
              ++ (entry "matched_role_id" MetaValue.id d.matched_role_id
                  ++ (entry "matched_rule_id" MetaValue.id d.matched_rule_id
                      ++ (entry "required_assurance_level" (λ l. MetaValue.label (level_label l))
                            d.required_assurance_level
                          ++ entry "required_mfa" MetaValue.flag d.required_mfa)))));
}
