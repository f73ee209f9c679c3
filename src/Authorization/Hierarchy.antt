-- ===== src/Authorization/Hierarchy.antt =====
-- src/pyiamkit/authorization/hierarchy.py: the RoleHierarchyResolver, over any Role repository.
-- The three searches run on the number of levels that are left, `max_depth + 1 - depth`: it is
-- nought exactly where `_require_depth` raises, so no fuel is added to the program's own bound.
pub mod Sorting
pub mod Paths
pub mod Coverage
pub mod Effective
pub mod Reach
pub mod Ancestors
pub mod Clear
pub mod Changes
pub mod Service
use pyiamkit.Prelude.{
  ℕ, zero, suc, ◌≡◌, Bool, true, false, not, Option, none, some, List, [], ◌∷◌, ◌++◌, Result, ok,
  err, ◌>>=◌, ◌>>◌, guard, ◌==◌, contains, add, nat_eq, if◌then◌else◌,
}
use pyiamkit.Authorization.Values.{
  PermissionCode, permission_eq, RoleHierarchyError, cycle, tenant_mismatch, unavailable,
  depth_exceeded,
}
use pyiamkit.Authorization.Role.{Role, is_active}
use Sorting.{sort_ids}

-- The port `RoleRepository`: `get` answers with the Role that is stored under the identifier.
pub record RoleRepository : Type 0 where
  pub get : ℕ → Option Role
  pub get_id : (n : ℕ) (r : Role) → get n ≡ some r → r.id ≡ n

abbrev pub HierarchyResult : Type 0 → Type 0
HierarchyResult = Result RoleHierarchyError

-- The test of `_validate_edge` on the tenants of a child and of its parent.
abbrev pub edge_allowed : Option ℕ → Option ℕ → Bool
edge_allowed none none = true
edge_allowed none (some _) = false
edge_allowed (some _) none = true
edge_allowed (some a) (some b) = a == b

unfoldable pub validate_edge : Role → Role → HierarchyResult (Unit {0})
validate_edge child parent = guard (edge_allowed child.tenant_id parent.tenant_id) tenant_mismatch

-- The lists `resolved` and `visited` that `_walk` appends to.
pub record Visit : Type 0 where
  pub resolved : List Role
  pub visited : List ℕ

module _ (roles : RoleRepository) where
  unfoldable pub require_available : ℕ → HierarchyResult Role
  require_available n = elim (roles.get n) [
    | none ↦ err unavailable
    | some role ↦ if is_active role.status then ok role else err unavailable
  ]

  -- What the three loops over the parents have in common: the checks of one parent.
  unfoldable pub next_parent : Role → List ℕ → ℕ → HierarchyResult Role
  unfolding require_available validate_edge
  next_parent role next_stack parent_id = do
    parent ← require_available parent_id
    validate_edge role parent
    guard (not (contains parent.id next_stack)) (cycle role.id parent.id)
    ok parent

  -- The loop of `_find_permission`; `find` is the recursive call.
  unfoldable pub find_in_parents :
      (Role → List ℕ → HierarchyResult (Option (List Role)))
      → Role
      → List ℕ
      → List ℕ
      → HierarchyResult (Option (List Role))
  find_in_parents find role next_stack [] = ok none
  find_in_parents find role next_stack (parent_id ∷ rest) = do
    parent ← next_parent role next_stack parent_id
    path ← find parent next_stack
    elim path [
      | some found ↦ ok (some (role ∷ found))
      | none ↦ find_in_parents find role next_stack rest
    ]

  unfoldable pub find_permission :
      PermissionCode → ℕ → Role → List ℕ → HierarchyResult (Option (List Role))
  find_permission permission zero role stack = err depth_exceeded
  find_permission permission (suc levels) role stack =
      if contains role.id stack
      then err (cycle role.id role.id)
      else if contains permission role.permissions
      then ok (some (role ∷ []))
      else find_in_parents (find_permission permission levels) role (add role.id stack)
          (sort_ids role.parent_role_ids)

  -- The loop of `_walk`; `walk` is the recursive call.
  unfoldable pub walk_parents :
      (Role → List ℕ → Visit → HierarchyResult Visit)
      → Role
      → List ℕ
      → List ℕ
      → Visit
      → HierarchyResult Visit
  walk_parents walk role next_stack [] v = ok v
  walk_parents walk role next_stack (parent_id ∷ rest) v = do
    parent ← next_parent role next_stack parent_id
    v' ← walk parent next_stack v
    walk_parents walk role next_stack rest v'

  unfoldable pub walk : ℕ → Role → List ℕ → Visit → HierarchyResult Visit
  walk zero role stack v = err depth_exceeded
  walk (suc levels) role stack v =
      if contains role.id stack
      then err (cycle role.id role.id)
      else if contains role.id v.visited
      then ok v
      else walk_parents (walk levels) role (add role.id stack) (sort_ids role.parent_role_ids)
          (record { resolved = v.resolved ++ role ∷ []; visited = add role.id v.visited })

  -- The loop of `_collect_ancestors`; `collect` is the recursive call.
  unfoldable pub collect_parents :
      (Role → List ℕ → List ℕ → HierarchyResult (List ℕ))
      → Role
      → List ℕ
      → List ℕ
      → List ℕ
      → HierarchyResult (List ℕ)
  collect_parents collect role next_stack [] ancestors = ok ancestors
  collect_parents collect role next_stack (parent_id ∷ rest) ancestors = do
    parent ← next_parent role next_stack parent_id
    ancestors' ←
        if contains parent.id ancestors
        then ok ancestors
        else collect parent next_stack (add parent.id ancestors)
    collect_parents collect role next_stack rest ancestors'

  unfoldable pub collect_ancestors : ℕ → Role → List ℕ → List ℕ → HierarchyResult (List ℕ)
  collect_ancestors zero role stack ancestors = err depth_exceeded
  collect_ancestors (suc levels) role stack ancestors =
      if contains role.id stack
      then err (cycle role.id role.id)
      else collect_parents (collect_ancestors levels) role (add role.id stack)
          (sort_ids role.parent_role_ids) ancestors

  module _ (max_depth : ℕ) where
    unfoldable pub ancestor_ids : ℕ → HierarchyResult (List ℕ)
    ancestor_ids role_id = do
      root ← require_available role_id
      collect_ancestors (suc max_depth) root [] []

    unfoldable pub resolve_roles : ℕ → HierarchyResult (List Role)
    resolve_roles role_id = do
      root ← require_available role_id
      v ← walk (suc max_depth) root [] (record { resolved = []; visited = [] })
      ok v.resolved

    unfoldable pub permission_path : ℕ → PermissionCode → HierarchyResult (Option (List Role))
    permission_path role_id permission = do
      root ← require_available role_id
      find_permission permission (suc max_depth) root []

-- `permissions.update(role.permissions)` for each role.
abbrev pub add_all : List PermissionCode → List PermissionCode → List PermissionCode
add_all [] acc = acc
add_all (p ∷ ps) acc = add_all ps (add p acc)

abbrev pub union_permissions : List Role → List PermissionCode → List PermissionCode
union_permissions [] acc = acc
union_permissions (r ∷ rs) acc = union_permissions rs (add_all r.permissions acc)

unfoldable pub effective_permissions :
    RoleRepository → ℕ → ℕ → HierarchyResult (List PermissionCode)
effective_permissions roles max_depth role_id = do
  resolved ← resolve_roles roles max_depth role_id
  ok (union_permissions resolved [])
