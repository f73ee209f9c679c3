-- ===== src/Tests/Governance.antt =====
-- The governance evaluators on one rule of each kind.
use pyiamkit.Prelude.{◌≡◌, refl, ◌↔◌, true, false, none, some, [], ◌∷◌, ok, All}
use pyiamkit.Authentication.Values.{AssuranceLevel}
use pyiamkit.Authorization.Hierarchy.Sorting.{sort_ids}
use pyiamkit.Authorization.Hierarchy.{
  require_available, next_parent, resolve_roles, walk, walk_parents,
}
use pyiamkit.Authorization.Requests.{
  AuthenticationEvidence, AuthorizationRequest, GovernanceViolation,
}
use pyiamkit.Authorization.Governance.{
  DistinctActorSodRule, assurance_violation, evaluate_constraints, detect_runtime,
  effective_role_ids, ensure_assignment_allowed,
}
use pyiamkit.Authorization.Requests.{assurance_step_up_required}
use pyiamkit.Authorization.Governance.Constraints.{
  IsSatisfied, evaluate_constraints-none, with_evidence,
}
use pyiamkit.Authorization.Governance.Duties.{IsSeparated, detect_runtime-IsSeparated}
use pyiamkit.Tests.Data.{request, two_roles, binding, strong_enough, exclusive, reading, utc_at}

abbrev weak : AuthenticationEvidence
weak = record { assurance_level = AssuranceLevel.aal2; mfa = true; authenticated_at = utc_at 90 }

abbrev strong : AuthenticationEvidence
strong = record { assurance_level = AssuranceLevel.aal3; mfa = true; authenticated_at = utc_at 95 }

abbrev single_factor : AuthorizationRequest
single_factor =
    with_evidence
      (record { assurance_level = AssuranceLevel.aal1; mfa = false; authenticated_at = utc_at 90 })
      request

abbrev step_up : GovernanceViolation
step_up = assurance_violation assurance_step_up_required (record {
  id = 31;
  permission = reading;
  minimum_assurance = AssuranceLevel.aal2;
  require_mfa = true;
  tenant_id = none;
})

steps_up : evaluate_constraints (strong_enough ∷ []) single_factor ≡ some step_up
unfolding evaluate_constraints
steps_up = refl

evaluate_constraints-none_example :
    (evaluate_constraints (strong_enough ∷ []) request ≡ none)
    ↔ All (IsSatisfied request) (strong_enough ∷ [])
evaluate_constraints-none_example = evaluate_constraints-none (strong_enough ∷ []) request

abbrev approves_others : DistinctActorSodRule
approves_others = record {
  id = 51;
  name = b'd' ∷ [];
  permission = reading;
  resource_attribute = b'c' ∷ [];
  tenant_id = none;
}

abbrev own_request : AuthorizationRequest
own_request = record request {
  resource = some (record {
    resource_type = b't' ∷ [];
    resource_id = b'i' ∷ [];
    tenant_id = 7;
    owner_id = none;
    attributes = (b'c' ∷ [], record { is_bool = false; text = b'u' ∷ []; identity = some 6 }) ∷ [];
  });
}

separated : detect_runtime two_roles 3 (exclusive ∷ []) (binding ∷ []) ≡ none
unfolding detect_runtime effective_role_ids resolve_roles require_available walk walk_parents
    next_parent sort_ids
separated = refl

detect_runtime-IsSeparated_example : All (IsSeparated two_roles 3 (binding ∷ [])) (exclusive ∷ [])
detect_runtime-IsSeparated_example =
    detect_runtime-IsSeparated two_roles 3 (exclusive ∷ []) (binding ∷ []) separated

assignable_again : ensure_assignment_allowed two_roles 3 (exclusive ∷ []) 2 (binding ∷ []) ≡ ok tt
unfolding ensure_assignment_allowed effective_role_ids resolve_roles require_available walk
    walk_parents next_parent sort_ids
assignable_again = refl
