-- ===== src/Tests/Enforcement.antt =====
-- The engine over the in-memory repositories, with a constraint that was registered.
use pyiamkit.Prelude.{◌≡◌, refl, none, some, [], ◌∷◌, ok, strip, arith, ◌==◌, if◌then◌else◌}
use pyiamkit.Shared.Stores.Laws.{IsStore}
use pyiamkit.Shared.Stores.{copy_first}
use pyiamkit.Identity.Values.{IdentityStatus}
use pyiamkit.Tenancy.Membership
use pyiamkit.Tenancy.Membership.{Membership}
use pyiamkit.Tenancy.Memory.Memberships
use pyiamkit.Authorization.Values.{parse, scan}
use pyiamkit.Authorization.Role
use pyiamkit.Authorization.RoleBinding
use pyiamkit.Authorization.Memory.Roles
use pyiamkit.Authorization.Memory
use pyiamkit.Authorization.Memory.{find_active_for_subject}
use pyiamkit.Authorization.Memory.Rules.{get_permission, list_for, list_static, list_dynamic}
use pyiamkit.Authorization.Memory.Filled.{Stores, in_memory_ports}
use pyiamkit.Authorization.Memory.Enforced.{registered-IsSatisfied}
use pyiamkit.Authorization.Governance.Constraints.{IsSatisfied}
use pyiamkit.Authorization.Governance.Exclusion.{run}
use pyiamkit.Authorization.Engine.Calls.{authorize, allow_decision}
use pyiamkit.Tests.Ascii.{ascii, lower, lower_char}
use pyiamkit.Authorization.Decisions.{allow}
use pyiamkit.Authorization.Hierarchy.{
  permission_path, require_available, find_permission, find_in_parents, next_parent, resolve_roles,
  walk, walk_parents,
}
use pyiamkit.Authorization.Hierarchy.Sorting.{sort_ids}
use pyiamkit.Authorization.Governance.{
  detect_runtime, effective_role_ids, evaluate_constraints, evaluate_duties,
}
use pyiamkit.Authorization.Governance.Registration.{
  register_constraint, require_permission, make_constraint,
}
use pyiamkit.Authorization.Memory.Rules.{save_constraint}
use pyiamkit.Authorization.Engine.{
  evaluate, try_bindings, sort_bindings, candidate, grant_path, evaluate_governance,
  static_violation, constraint_violation_of, dynamic_violation,
}
use pyiamkit.Tests.Memory.{items, items-IsStored}
use pyiamkit.Tests.Data.{reading, two_roles, member, firm, viewer, editor, request, grant, noon}
use pyiamkit.Tests.Registration.{
  catalog, nothing, level_two, level_rule, with_level, registers_level, later,
}

member-IsStore : IsStore Memberships.memberships ((11, member) ∷ [])
unfolding Memberships.copy Membership.rehydrate Membership.init strip
member-IsStore = record {
  distinct = ((λ i. i), tt);
  entries = (record { key = refl; same = refl }, tt);
}

abbrev role_items : Roles.Items
role_items = (1, viewer) ∷ (2, editor) ∷ []

role_items-IsStore : IsStore Roles.roles role_items
unfolding Roles.copy Role.rehydrate Role.init Role.normalize_name strip
role_items-IsStore = record {
  distinct = (ground arith, ((λ i. i), tt));
  entries = (record { key = refl; same = refl }, (record { key = refl; same = refl }, tt));
}

abbrev stores : Stores
stores = record {
  identities = λ n. if n == 5 then some IdentityStatus.active else none;
  tenants = (7, firm) ∷ [];
  memberships = (11, member) ∷ [];
  catalog = catalog;
  roles = record { items = role_items; holds = role_items-IsStore };
  bindings = items;
  memberships_hold = member-IsStore;
  bindings_hold = items-IsStored;
}

allowed_by_stores :
    (authorize
      (in_memory_ports stores 3 (run ascii catalog two_roles later with_level))
      none
      9
      noon
      request
      []).0
    ≡ ok (allow_decision 9 noon request grant)
unfolding authorize evaluate try_bindings sort_bindings candidate permission_path require_available
    find_permission find_in_parents sort_ids next_parent grant_path evaluate_governance
    static_violation detect_runtime effective_role_ids resolve_roles walk walk_parents
    constraint_violation_of dynamic_violation evaluate_constraints evaluate_duties run
    register_constraint require_permission parse scan get_permission make_constraint save_constraint
    strip lower lower_char list_for list_static list_dynamic find_active_for_subject
    Memberships.find_active Memberships.copy Membership.rehydrate Membership.init
    Membership.is_active copy_first Memory.find_for_subject Memory.copy RoleBinding.rehydrate
    Memory.keep_active RoleBinding.is_active
allowed_by_stores = refl

reads_permission : parse ascii reading.value ≡ ok reading
unfolding parse scan strip lower lower_char
reads_permission = refl

is_allow : (allow_decision 9 noon request grant).result ≡ allow
unfolding allow_decision
is_allow = refl

registered-IsSatisfied_example : IsSatisfied request level_rule
registered-IsSatisfied_example =
    registered-IsSatisfied ascii catalog two_roles level_two reading.value (some 7) 31 noon nothing
      registers_level later (refl, tt) stores 3 request noon 9 none [] reads_permission refl
      allowed_by_stores is_allow
