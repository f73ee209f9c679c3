-- ===== src/Tests/Hierarchy.antt =====
-- The searches on the two Roles, where the editor inherits from the viewer.
use pyiamkit.Prelude.{
  ℕ, ◌≤◌, ◌≡◌, refl, ◌↔◌, true, false, none, some, [], ◌∷◌, ok, In, Distinct, contains,
}
use pyiamkit.Authorization.Values.{permission_eq}
use pyiamkit.Authorization.Role.{Role, is_active}
use pyiamkit.Authorization.Hierarchy.Sorting.{sort_ids}
use pyiamkit.Authorization.Hierarchy.{
  permission_path, require_available, find_permission, find_in_parents, next_parent, resolve_roles,
  walk, walk_parents, effective_permissions,
}
use pyiamkit.Authorization.Hierarchy.Paths.{
  PermissionPath, Ancestor, permission_path_sound, permission_path_complete,
}
use pyiamkit.Authorization.Hierarchy.Effective.{
  resolve_roles-exact, permission_path-effective, is_found,
}
use pyiamkit.Tests.Data.{two_roles, viewer, editor, reading, writing}

inherits_reading : permission_path two_roles 3 2 reading ≡ ok (some (editor ∷ viewer ∷ []))
unfolding permission_path require_available find_permission find_in_parents next_parent sort_ids
inherits_reading = refl

lacks_writing : permission_path two_roles 3 2 writing ≡ ok none
unfolding permission_path require_available find_permission find_in_parents next_parent sort_ids
lacks_writing = refl

resolves_both : resolve_roles two_roles 3 2 ≡ ok (editor ∷ viewer ∷ [])
unfolding resolve_roles require_available walk walk_parents next_parent sort_ids
resolves_both = refl

effectively_reads : effective_permissions two_roles 3 2 ≡ ok (reading ∷ [])
unfolding effective_permissions resolve_roles require_available walk walk_parents next_parent
    sort_ids
effectively_reads = refl

permission_path_sound_example :
    (root : Role) × (two_roles.get 2 ≡ some root)
    × (is_active root.status ≡ true)
    × PermissionPath two_roles reading root (editor ∷ viewer ∷ [])
    × (2 ≤ 4)
    × Distinct {A = ℕ} (2 ∷ 1 ∷ [])
permission_path_sound_example = permission_path_sound two_roles 3 2 reading inherits_reading

permission_path_complete_example :
    (root : Role) × (two_roles.get 2 ≡ some root)
    × (is_active root.status ≡ true)
    × ((to : Role) → Ancestor two_roles to root → contains writing to.permissions ≡ false)
permission_path_complete_example = permission_path_complete two_roles 3 2 writing lacks_writing

resolve_roles-exact_example :
    (root : Role) × (two_roles.get 2 ≡ some root)
    × ((x : Role) → In x (editor ∷ viewer ∷ []) ↔ Ancestor two_roles x root)
resolve_roles-exact_example = resolve_roles-exact two_roles 3 2 resolves_both

permission_path-effective_example :
    contains reading (reading ∷ []) ≡ is_found two_roles (some (editor ∷ viewer ∷ []))
permission_path-effective_example =
    permission_path-effective two_roles 3 2 reading effectively_reads inherits_reading
