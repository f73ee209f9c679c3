-- ===== src/Tests/Registration.antt =====
-- The registration of rules, on a catalog with one permission and the two Roles.
use pyiamkit.Prelude.{ℕ, ◌≡◌, refl, true, false, some, List, [], ◌∷◌, ok, strip}
use pyiamkit.Shared.{DateTime}
use pyiamkit.Authentication.Values.{AssuranceLevel}
use pyiamkit.Authorization.Values.{parse, scan, static_rule_registered}
use pyiamkit.Authorization.RoleBinding.{RoleBinding}
use pyiamkit.Authorization.Hierarchy.{
  require_available, next_parent, resolve_roles, walk, walk_parents,
}
use pyiamkit.Authorization.Hierarchy.Sorting.{sort_ids}
use pyiamkit.Authorization.Governance.{
  AuthorizationConstraint, minimum_assurance, MutuallyExclusiveRolesRule, ensure_assignment_allowed,
  effective_role_ids,
}
use pyiamkit.Authorization.Governance.Duties.{Holds}
use pyiamkit.Authorization.Memory.Rules.{
  Catalog, get_permission, save_constraint, save_static, list_static,
}
use pyiamkit.Authorization.Governance.Registration.{
  State, Limit, require_text, make_constraint, make_exclusive, require_permission, require_role,
  register_constraint, register_exclusive, rule_event, limit_event,
}
use pyiamkit.Authorization.Governance.Exclusion.{
  Registration, Exclusive, run, registered-IsSeparated,
}
use pyiamkit.Tests.Ascii.{ascii, lower, lower_char}
use pyiamkit.Tests.Data.{reading, two_roles, binding, noon}

abbrev pub catalog : Catalog
catalog = record { code = reading; description = []; sensitive = false } ∷ []

abbrev pub nothing : State
nothing = record { constraints = []; sod = record { static = []; dynamic = [] }; published = [] }

-- Level 2 with a second factor, for reading in tenant 7.
abbrev pub level_two : Limit
level_two = Limit.assurance_of AssuranceLevel.aal2 true

abbrev pub level_rule : AuthorizationConstraint
level_rule = minimum_assurance (record {
  id = 31;
  permission = reading;
  minimum_assurance = AssuranceLevel.aal2;
  require_mfa = true;
  tenant_id = some 7;
})

abbrev pub with_level : State
with_level = record nothing {
  constraints = (31, level_rule) ∷ [];
  published = rule_event (limit_event level_two) 31 (some 7) noon ∷ [];
}

pub registers_level :
    register_constraint ascii catalog level_two reading.value (some 7) 31 noon nothing
    ≡ ok (level_rule, with_level)
unfolding register_constraint require_permission parse scan get_permission make_constraint
    save_constraint strip lower lower_char
registers_level = refl

-- The viewer and the editor exclude each other, in every tenant of the rule.
abbrev apart : MutuallyExclusiveRolesRule
apart = record {
  id = 32;
  name = b'x' ∷ [];
  first_role_id = 1;
  second_role_id = 2;
  tenant_id = some 7;
}

abbrev with_rule : State
with_rule = record nothing {
  sod = record { static = (32, apart) ∷ []; dynamic = [] };
  published = rule_event static_rule_registered 32 (some 7) noon ∷ [];
}

registers_rule :
    register_exclusive two_roles (b'x' ∷ b' ' ∷ []) 1 2 (some 7) 32 noon nothing
    ≡ ok (apart, with_rule)
unfolding register_exclusive require_role make_exclusive require_text save_static strip
registers_rule = refl

abbrev pub later : List (ℕ × DateTime × Registration)
later = (33, noon, Registration.constraint level_two reading.value (some 7)) ∷ []

-- A binding of the viewer alone.
abbrev viewing : RoleBinding
viewing = record binding { args = record (binding.args) { role_id = 1 } }

viewing_allowed :
    ensure_assignment_allowed two_roles 3
      (list_static 7 (run ascii catalog two_roles later with_rule).sod)
      1
      []
    ≡ ok tt
unfolding ensure_assignment_allowed list_static run register_constraint require_permission parse
    scan get_permission make_constraint save_constraint strip lower lower_char effective_role_ids
    resolve_roles require_available walk walk_parents next_parent sort_ids
viewing_allowed = refl

registered-IsSeparated_example :
    Exclusive two_roles 1 2 (some 7) 32 nothing apart with_rule
    × (¬ (Holds two_roles (viewing ∷ []) 1 × Holds two_roles (viewing ∷ []) 2))
registered-IsSeparated_example =
    registered-IsSeparated ascii catalog two_roles (b'x' ∷ b' ' ∷ []) 1 2 (some 7) 32 noon nothing
      registers_rule later (refl, tt) 7 refl two_roles 3 [] viewing viewing_allowed
