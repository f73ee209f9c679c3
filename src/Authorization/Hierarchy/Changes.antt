-- ===== src/Authorization/Hierarchy/Changes.antt =====
-- src/pyiamkit/authorization/hierarchy.py: what the methods of the RoleHierarchyApplicationService do
-- before they save. They read the repository, and may raise. The clock's moment is an argument.
use pyiamkit.Prelude.{
  ℕ, Bool, true, not, Result, ok, ◌>>=◌, ◌>>◌, guard, ◌==◌, or_raise, map_err, contains, nat_eq,
  if◌then◌else◌,
}
use pyiamkit.Shared.{DateTime}
use pyiamkit.Authorization.Values.{
  AuthorizationError, role_not_found, role_hierarchy, unavailable, cycle,
}
use pyiamkit.Authorization.Role.{Role, is_active}
use pyiamkit.Authorization.Role
use pyiamkit.Authorization.Hierarchy.{RoleRepository, HierarchyResult, validate_edge, ancestor_ids}

-- The exceptions of the service's methods.
pub data ServiceError : Type 0 where
  authorization : AuthorizationError → ServiceError
  runtime_error : ServiceError
  -- What an event sink of the application raises.
  sink_error : ℕ → ServiceError

abbrev pub hierarchy : {A : Type 0} → HierarchyResult A → Result ServiceError A
hierarchy r = map_err (λ e. authorization (role_hierarchy e)) r

module _ (roles : RoleRepository) where
  -- `_require_role`.
  unfoldable pub require_role : ℕ → Result ServiceError Role
  require_role n = do
    role ← or_raise (roles.get n) (authorization (role_not_found n))
    guard (is_active role.status) (authorization (role_hierarchy unavailable))
    ok role

  -- The test of `add_parent_role`: the parent is the Role itself, or stands below it.
  unfoldable pub closes_cycle : ℕ → Role → Role → HierarchyResult Bool
  closes_cycle max_depth role parent =
      if role.id == parent.id
      then ok true
      else do ids ← ancestor_ids roles max_depth parent.id; ok (contains role.id ids)

  unfoldable pub with_parent : ℕ → DateTime → ℕ → ℕ → Result ServiceError Role
  unfolding require_role closes_cycle
  with_parent max_depth now role_id parent_role_id = do
    role ← require_role role_id
    parent ← require_role parent_role_id
    hierarchy (validate_edge role parent)
    closes ← hierarchy (closes_cycle max_depth role parent)
    guard (not closes) (authorization (role_hierarchy (cycle role.id parent.id)))
    map_err authorization (Role.add_parent_role parent.id now role)

  unfoldable pub without_parent : DateTime → ℕ → ℕ → Result ServiceError Role
  unfolding require_role
  without_parent now role_id parent_role_id = do
    role ← require_role role_id
    map_err authorization (Role.remove_parent_role parent_role_id now role)
