-- ===== src/Tests/Engine.antt =====
-- The engine on the small organisation.
use pyiamkit.Prelude.{
  inr, Option, In, subst, sym, inl, ◌≡◌, refl, ◌⊎◌, true, none, some, List, [], ◌∷◌, ok, err, ap,
}
use pyiamkit.Shared.{before_end}
use pyiamkit.Tenancy.Membership.{Membership}
use pyiamkit.Tenancy.Membership
use pyiamkit.Authorization.Values.{audit_failure}
use pyiamkit.Authorization.RoleBinding.{RoleBinding}
use pyiamkit.Authorization.RoleBinding
use pyiamkit.Authorization.Decisions.{
  AuthorizationDecision, allow, deny, audit_event, deny_permission_not_granted,
}
use pyiamkit.Authorization.Hierarchy.Sorting.{sort_ids}
use pyiamkit.Authorization.Hierarchy.{
  permission_path, require_available, find_permission, find_in_parents, next_parent, resolve_roles,
  walk, walk_parents,
}
use pyiamkit.Authorization.Governance.{
  detect_runtime, effective_role_ids, evaluate_constraints, evaluate_duties,
}
use pyiamkit.Authorization.Engine.Soundness.{IsPermitted}
use pyiamkit.Authorization.Engine.Outcomes.{authorize_sound, valid_until-active}
use pyiamkit.Authorization.Engine.Denials.{authorize-denied}
use pyiamkit.Authorization.Engine.Reasons.{Explains}
use pyiamkit.Authorization.Engine.Violations.{Reports}
use pyiamkit.Authorization.Requests.{GovernanceViolation}
use pyiamkit.Authorization.Role.{Role}
use pyiamkit.Authorization.Engine.Grants.{IsCandidate}
use pyiamkit.Authorization.Engine.Completeness.{IsGranted, authorize_complete}
use pyiamkit.Authorization.Engine.Audit.{Call, authorize_all, LogTells, authorize_all-audited}
use pyiamkit.Authorization.Engine.{
  Grant, Denial, evaluate, try_bindings, sort_bindings, candidate, grant_path, evaluate_governance,
  static_violation, constraint_violation_of, dynamic_violation,
}
use pyiamkit.Authorization.Engine.Calls.{allow_decision, deny_decision, authorize}
use pyiamkit.Tests.Data.{
  ports, binding, member, firm, editor, viewer, request, write_request, noon, evening, grant,
  taking, down,
}

abbrev denial : Denial
denial = record { reason = deny_permission_not_granted; violation = none; explanation = [] }

-- The editor may read by inheritance.
allowed_at_noon : authorize ports taking 9 noon request [] ≡ (
  ok (allow_decision 9 noon request grant),
  audit_event (allow_decision 9 noon request grant) ∷ [],
)
unfolding authorize evaluate try_bindings sort_bindings candidate permission_path require_available
    find_permission find_in_parents sort_ids next_parent grant_path evaluate_governance
    static_violation detect_runtime effective_role_ids resolve_roles walk walk_parents
    constraint_violation_of dynamic_violation evaluate_constraints evaluate_duties
allowed_at_noon = refl

is_allow : (allow_decision 9 noon request grant).result ≡ allow
unfolding allow_decision
is_allow = refl

authorize_sound_example :
    (g : Grant) × IsPermitted ports request noon g
    × (allow_decision 9 noon request grant ≡ allow_decision 9 noon request g)
authorize_sound_example =
    authorize_sound ports request noon 9 taking [] (ap (λ x. x.0) allowed_at_noon) is_allow

until_evening : before_end evening (allow_decision 9 noon request grant).valid_until ≡ true
unfolding allow_decision
until_evening = refl

valid_until-active_example :
    (m : Membership) × (b : RoleBinding) × ((allow_decision 9 noon request
        grant).matched_membership_id
      ≡ some m.id)
    × ((allow_decision 9 noon request grant).matched_binding_id ≡ some b.id)
    × (Membership.active_at evening m.args ≡ true)
    × (RoleBinding.active_at evening b.args ≡ true)
    × (ports.find_active request.subject_id request.tenant_id noon ≡ ok (some m))
    × ((bs : List RoleBinding) × (ports.find_active_for_subject request.subject_id request.tenant_id
            noon
          ≡ ok bs)
        × In b bs)
valid_until-active_example =
    valid_until-active ports request noon 9 taking [] (allow_decision 9 noon request grant) evening
      (ap (λ x. x.0) allowed_at_noon) is_allow refl until_evening

-- No Role gives the other permission.
denied_at_noon :
    (authorize ports taking 9 noon write_request []).0
    ≡ ok (deny_decision 9 noon write_request denial)
unfolding authorize evaluate try_bindings sort_bindings candidate permission_path require_available
    find_permission find_in_parents sort_ids next_parent
denied_at_noon = refl

is_deny : (deny_decision 9 noon write_request denial).result ≡ deny
unfolding deny_decision
is_deny = refl

authorize-denied_example :
    Explains ports write_request noon (deny_decision 9 noon write_request denial).reason_code
    ⊎ ((bs : List RoleBinding) × (v : GovernanceViolation) × Reports ports write_request noon
          (deny_decision 9 noon write_request denial)
          bs
          v)
authorize-denied_example =
    authorize-denied ports write_request noon taking 9 [] denied_at_noon is_deny

-- A sink that is down takes the decision with it.
lost_at_noon : (authorize ports down 9 noon write_request []) ≡ (err (audit_failure 1), [])
unfolding authorize evaluate try_bindings sort_bindings candidate permission_path require_available
    find_permission find_in_parents sort_ids next_parent
lost_at_noon = refl

abbrev two_calls : List Call
two_calls =
    record { ports = ports; new_id = 9; now = noon; request = request }
    ∷ record { ports = ports; new_id = 10; now = evening; request = write_request }
    ∷ []

authorize_all-audited_example : LogTells taking [] (authorize_all taking two_calls [])
authorize_all-audited_example = authorize_all-audited taking two_calls []

viewer_candidate : IsCandidate ports request binding editor (some (editor ∷ viewer ∷ []))
unfolding permission_path require_available find_permission find_in_parents sort_ids next_parent
viewer_candidate = record { stored = refl; available = refl; tenant = refl; searched = refl }

no_violation : evaluate_governance ports request (binding ∷ []) ≡ none
unfolding evaluate_governance static_violation detect_runtime effective_role_ids resolve_roles walk
    walk_parents next_parent sort_ids require_available constraint_violation_of dynamic_violation
    evaluate_constraints evaluate_duties
no_violation = refl

binding_candidate :
    (b : RoleBinding)
    → In b (binding ∷ [])
    → b.scope ≡ request.scope
    → (role : Role) × (path : Option (List Role)) × IsCandidate ports request b role path
binding_candidate b (inl e) s = (
  editor,
  some (editor ∷ viewer ∷ []),
  subst (λ x. IsCandidate ports request x editor (some (editor ∷ viewer ∷ []))) (sym e)
      viewer_candidate,
)
binding_candidate b (inr i) s = absurd i

is_granted : IsGranted ports request noon (binding ∷ [])
is_granted = record {
  subject_active = refl;
  tenant_active = (firm, refl, refl);
  is_member = (member, refl);
  registered = (_, refl);
  bound = refl;
  in_order = binding_candidate;
  has_path = (binding, editor, editor ∷ viewer ∷ [], inl refl, refl, viewer_candidate);
  governed = no_violation;
}

authorize_complete_example :
    (d : AuthorizationDecision) × ((authorize ports taking 9 noon request []).0 ≡ ok d)
    × (d.result ≡ allow)
authorize_complete_example =
    authorize_complete ports request noon 9 taking [] (binding ∷ []) refl is_granted (λ e log. refl)
