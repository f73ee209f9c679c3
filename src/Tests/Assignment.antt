-- ===== src/Tests/Assignment.antt =====
-- The assignment of a Role to a subject who has none.
use pyiamkit.Authorization.RoleBinding
use pyiamkit.Prelude.{ℕ, some, ◌≡◌, refl, none, [], ◌∷◌, ◌++◌, ◌==◌, false, ok}
use pyiamkit.Authorization.Values.{
  GrantSource, RoleBindingStatus, role_assigned, role_binding_suspended,
}
use pyiamkit.Authorization.RoleBinding.{RoleBinding, create, event, rehydrate}
use pyiamkit.Authorization.Hierarchy.Sorting.{sort_ids}
use pyiamkit.Authorization.Hierarchy.{
  require_available, next_parent, resolve_roles, walk, walk_parents,
}
use pyiamkit.Authorization.Governance.{ensure_assignment_allowed, effective_role_ids}
use pyiamkit.Authorization.Memory.{
  save, get, copy, find_for_subject, find_active_for_subject, keep_active,
}
use pyiamkit.Authorization.Assignment.{
  Assignment, State, require_assignable, bind_role, check_duties, save_binding, assign_role,
  change_binding, require_binding,
}
use pyiamkit.Authorization.Assignment.Assigned.{IsAssigned, assign_role-IsAssigned}
use pyiamkit.Authorization.Assignment.Changes.{change_binding-moved}
use pyiamkit.Authorization.Memory.Bindings.{IsStored}
use pyiamkit.Authorization.RoleBinding.Lifecycle.{Call, IsValid, next_status, moved, event_of}
use pyiamkit.Tests.Data.{evening, ports, scope, noon, binding_args}

abbrev assignment : Assignment
assignment = record {
  identity_id = 5;
  role_id = 2;
  tenant_id = 7;
  scope = scope;
  valid_until = none;
  grant_source = GrantSource.direct;
  granted_by = none;
  justification = none;
  authentication = none;
}

abbrev new_binding : RoleBinding
new_binding = record {
  args = record binding_args {
    id = 22;
    created_at = noon;
    updated_at = noon;
    valid_from = noon;
    valid_until = none;
  };
  pending_events = [];
}

abbrev nothing_yet : State
nothing_yet = record { items = []; published = [] }

abbrev one_binding : State
one_binding = record {
  items = (22, new_binding) ∷ [];
  published = event role_assigned noon new_binding.args ∷ [];
}

assigned : assign_role ports noon none 22 assignment nothing_yet ≡ ok (new_binding, one_binding)
unfolding assign_role require_assignable bind_role check_duties save_binding find_active_for_subject
    find_for_subject keep_active create save get copy rehydrate ensure_assignment_allowed
    effective_role_ids resolve_roles require_available walk walk_parents next_parent sort_ids
assigned = refl

assign_role-IsAssigned_example :
    (new_binding.id ≡ 22)
    × IsAssigned ports noon none assignment nothing_yet new_binding one_binding
assign_role-IsAssigned_example =
    assign_role-IsAssigned ports noon none 22 assignment nothing_yet tt assigned

abbrev suspended_binding : RoleBinding
suspended_binding = record {
  args = record (new_binding.args) {
    status = RoleBindingStatus.suspended;
    version = 1;
    updated_at = evening;
  };
  pending_events = [];
}

abbrev then_suspended : State
then_suspended = record {
  items = (22, suspended_binding) ∷ [];
  published =
      event role_assigned noon new_binding.args
      ∷ event role_binding_suspended evening new_binding.args
      ∷ [];
}

new_binding-IsValid : IsValid new_binding.args
new_binding-IsValid = record {
  created_utc = refl;
  updated_utc = refl;
  from_utc = refl;
  until_utc = refl;
  scoped = refl;
  ordered = refl;
  normalized = refl;
}

one_binding-IsStored : IsStored one_binding.items
one_binding-IsStored = (record { valid = new_binding-IsValid; no_events = refl }, tt)

suspended :
    change_binding (RoleBinding.suspend evening) 22 one_binding
    ≡ ok (suspended_binding, then_suspended)
unfolding change_binding require_binding RoleBinding.suspend save_binding save get copy rehydrate
suspended = refl

change_binding-moved_example :
    (b : RoleBinding) × (get 22 one_binding.items ≡ ok (some b))
    × (next_status Call.suspends b.status ≡ some RoleBindingStatus.suspended)
    × (suspended_binding.args ≡ moved RoleBindingStatus.suspended evening b.args)
    × IsStored then_suspended.items
    × (get b.id then_suspended.items ≡ ok (some suspended_binding))
    × ((m : ℕ) → m == b.id ≡ false → get m then_suspended.items ≡ get m one_binding.items)
    × (then_suspended.published
        ≡ one_binding.published ++ event (event_of Call.suspends) evening b.args ∷ [])
change_binding-moved_example =
    change_binding-moved Call.suspends evening 22 one_binding one_binding-IsStored suspended
