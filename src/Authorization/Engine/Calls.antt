-- ===== src/Authorization/Engine/Calls.antt =====
-- src/pyiamkit/authorization/engine.py: the decisions of the engine, their record, and its public calls.
use pyiamkit.Prelude.{
  ℕ, Bool, Option, none, some, List, [], ◌∷◌, ◌++◌, Result, ok, err, ◌>>=◌, map_err, map, leb,
  length, if◌then◌else◌,
}
use pyiamkit.Shared.{DateTime, before}
use pyiamkit.Authorization.Values.{AuthorizationError}
use pyiamkit.Authorization.Role.{Role}
use pyiamkit.Authorization.Requests.{AuthorizationRequest, GovernanceViolation}
use pyiamkit.Authorization.Decisions.{
  ExplanationStep, AuthorizationDecision, DecisionAuditEvent, allow, deny,
  allow_inherited_role_permission_match, allow_role_permission_match, check_decision, audit_event,
  allowed, ExplanationLevel, DecisionExplanation, explanation,
}
use pyiamkit.Authorization.Engine.Repositories.{Ports}
use pyiamkit.Authorization.Engine.{Denial, denied, raised, Grant, evaluate}

-- `path[-1]`, where the path is not empty.
abbrev pub last_role : Role → List Role → Role
last_role r [] = r
last_role r (s ∷ rest) = last_role s rest

-- The earlier of the ends of the Membership and of the binding.
abbrev pub earlier_end : Option DateTime → Option DateTime → Option DateTime
earlier_end m none = m
earlier_end none (some b) = some b
earlier_end (some m) (some b) = if before b m then some b else some m

unfoldable pub allow_decision : ℕ → DateTime → AuthorizationRequest → Grant → AuthorizationDecision
allow_decision new_id now request g = record {
  result = allow;
  reason_code =
      if leb (length g.path) 1
      then allow_role_permission_match
      else allow_inherited_role_permission_match;
  subject_id = request.subject_id;
  tenant_id = request.tenant_id;
  permission = request.permission;
  scope = request.scope;
  evaluated_at = now;
  id = new_id;
  valid_until = earlier_end g.membership.valid_until g.binding.valid_until;
  matched_membership_id = some g.membership.id;
  bound_role_id = some g.role.id;
  matched_binding_id = some g.binding.id;
  matched_role_id = some (last_role g.role g.path).id;
  matched_rule_id = none;
  required_assurance_level = none;
  required_mfa = none;
  resource = request.resource;
  correlation_id = request.correlation_id;
  explanation_path =
      ExplanationStep.subject request.subject_id
      ∷ ExplanationStep.tenant request.tenant_id
      ∷ ExplanationStep.binding g.binding.id
      ∷ (map (λ r. ExplanationStep.role r.id) g.path
          ++ ExplanationStep.permission request.permission ∷ ExplanationStep.result allow ∷ []);
}

-- A field of the violation that a denial may carry.
abbrev from_violation {ℓ} :
    {A : Type ℓ} → (GovernanceViolation → Option A) → Option GovernanceViolation → Option A
from_violation f none = none
from_violation f (some v) = f v

unfoldable pub deny_decision : ℕ → DateTime → AuthorizationRequest → Denial → AuthorizationDecision
deny_decision new_id now request d = record {
  result = deny;
  reason_code = d.reason;
  subject_id = request.subject_id;
  tenant_id = request.tenant_id;
  permission = request.permission;
  scope = request.scope;
  evaluated_at = now;
  id = new_id;
  valid_until = none;
  matched_membership_id = none;
  bound_role_id = none;
  matched_binding_id = none;
  matched_role_id = none;
  matched_rule_id = from_violation (λ v. some v.rule_id) d.violation;
  required_assurance_level = from_violation (λ v. v.required_assurance_level) d.violation;
  required_mfa = from_violation (λ v. v.required_mfa) d.violation;
  resource = request.resource;
  correlation_id = request.correlation_id;
  explanation_path =
      ExplanationStep.subject request.subject_id
      ∷ ExplanationStep.tenant request.tenant_id
      ∷ (d.explanation ++ ExplanationStep.reason d.reason ∷ ExplanationStep.result deny ∷ []);
}

abbrev pub AuditLog : Type 0
AuditLog = List DecisionAuditEvent

-- The audit sink of the application, where there is one: what its `append` raises on an event, if
-- anything, after the events that it has taken.
abbrev pub AuditSink : Type 0
AuditSink = Option (DecisionAuditEvent → AuditLog → Option AuthorizationError)

-- What `record_decision` does by how `append` ends: what the sink raises goes out in place of the
-- decision.
abbrev pub appended :
    Option AuthorizationError
    → AuthorizationDecision
    → AuditLog
    → Result AuthorizationError AuthorizationDecision × AuditLog
appended none d log = (ok d, log ++ audit_event d ∷ [])
appended (some e) d log = (err e, log)

-- `record_decision`, which `_finalize` calls, with or without an audit sink.
abbrev pub record_decision :
    AuditSink
    → AuthorizationDecision
    → AuditLog
    → Result AuthorizationError AuthorizationDecision × AuditLog
record_decision none d log = (ok d, log)
record_decision (some append) d log = appended (append (audit_event d) log) d log

-- The decision of an evaluation; the constructor of a decision may raise.
unfoldable pub decide :
    Ports → ℕ → DateTime → AuthorizationRequest → Result AuthorizationError AuthorizationDecision
unfolding allow_decision deny_decision check_decision
decide ports new_id now request = elim (evaluate ports request now) [
  | ok g ↦ check_decision (allow_decision new_id now request g)
  | err stop ↦ elim stop [
    | denied d ↦ check_decision (deny_decision new_id now request d)
    | raised e ↦ err e
  ]
]

abbrev pub recorded :
    AuditSink
    → Result AuthorizationError AuthorizationDecision
    → AuditLog
    → Result AuthorizationError AuthorizationDecision × AuditLog
recorded sink (ok d) log = record_decision sink d log
recorded sink (err e) log = (err e, log)

-- `authorize`: the decision, or what a repository or the audit sink raised, and the audit log
-- behind it. `AuthorizationDecisionId.new()` is the
-- argument `new_id`, and `clock.now()` is `now`.
unfoldable pub authorize :
    Ports
    → AuditSink
    → ℕ
    → DateTime
    → AuthorizationRequest
    → AuditLog
    → Result AuthorizationError AuthorizationDecision × AuditLog
unfolding decide
authorize ports sink new_id now request log = recorded sink (decide ports new_id now request) log

abbrev map_ok : {E A B : Type 0} → (A → B) → Result E A → Result E B
map_ok f (ok a) = ok (f a)
map_ok f (err e) = err e

-- What `require` raises: `AuthorizationDenied` with its decision, or what `authorize` raised.
pub data RequireError : Type 0 where
  authorization_denied : AuthorizationDecision → RequireError
  other_error : AuthorizationError → RequireError

unfoldable pub require :
    Ports
    → AuditSink
    → ℕ
    → DateTime
    → AuthorizationRequest
    → AuditLog
    → Result RequireError AuthorizationDecision × AuditLog
unfolding authorize
require ports sink new_id now request log =
    let (r, log') = authorize ports sink new_id now request log in
    (
      (map_err other_error r >>= λ d. if allowed d then ok d else err (authorization_denied d)),
      log',
    )

unfoldable pub can :
    Ports
    → AuditSink
    → ℕ
    → DateTime
    → AuthorizationRequest
    → AuditLog
    → Result AuthorizationError Bool × AuditLog
unfolding authorize
can ports sink new_id now request log =
    let (r, log') = authorize ports sink new_id now request log in (map_ok allowed r, log')

unfoldable pub describe :
    Ports
    → AuditSink
    → ℕ
    → DateTime
    → AuthorizationRequest
    → ExplanationLevel
    → AuditLog
    → Result AuthorizationError DecisionExplanation × AuditLog
unfolding authorize explanation
describe ports sink new_id now request level log =
    let (r, log') = authorize ports sink new_id now request log in
    (map_ok (explanation level) r, log')
