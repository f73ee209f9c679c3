-- ===== src/Authorization/Hierarchy/Paths.antt =====
-- What `permission_path` finds: a path of available Roles with no repetition and of bounded length,
-- and, where it finds none, that there is none.
use pyiamkit.Prelude.{
  ℕ, zero, suc, ◌≤◌, ◌≡◌, refl, sym, ◌∙◌, subst, inl, inr, true, false, Option, none, some, List,
  [], ◌∷◌, ok, >>=-eq-ok, contains, add, In, Distinct, All, nat_eq, length, contains-add,
  Bool-cases, Option-cases, arith,
}
use pyiamkit.Authorization.Values.{PermissionCode, permission_eq}
use pyiamkit.Authorization.Role.{Role, is_active}
use pyiamkit.Authorization.Hierarchy.Sorting.{sort_ids, In-sort_ids, sort_ids-In}
use pyiamkit.Authorization.Hierarchy.{
  RoleRepository, HierarchyResult, edge_allowed, require_available, next_parent, find_in_parents,
  find_permission, permission_path,
}

module _ (roles : RoleRepository) where
  -- `parent` is declared by `role`, is stored and active, and the edge between the two is allowed.
  pub record IsParent (role parent : Role) : Type 0 where
    pub declared : In parent.id role.parent_role_ids
    pub stored : roles.get parent.id ≡ some parent
    pub available : is_active parent.status ≡ true
    pub allowed : edge_allowed role.tenant_id parent.tenant_id ≡ true

  pub next_parent-ok :
      (role : Role) (stack : List ℕ) (n : ℕ) {parent : Role}
      → In n role.parent_role_ids
      → next_parent roles role stack n ≡ ok parent
      → IsParent role parent × (contains parent.id stack ≡ false) × (roles.get n ≡ some parent)
  unfolding next_parent
  next_parent-ok role stack n i h = elim (Option-cases (roles.get n)) [
    | inl e ↦ ground arith
    | inr (r, e) ↦ ground (arith, roles.get_id n r e)
  ]

  -- The Roles of a path from `role`, itself first, to one that has the permission itself.
  pub data PermissionPath (permission : PermissionCode) : Role → List Role → Type 0 where
    own :
        (role : Role)
        → contains permission role.permissions ≡ true
        → PermissionPath permission role (role ∷ [])
    inherited :
        (role parent : Role) (path : List Role)
        → IsParent role parent
        → PermissionPath permission parent path
        → PermissionPath permission role (role ∷ path)

  -- The path avoids the Roles of the stack.
  abbrev pub Avoids : List ℕ → List Role → Type 0
  Avoids stack = All (λ r. contains r.id stack ≡ false)

  abbrev ids : List Role → List ℕ
  ids [] = []
  ids (r ∷ rs) = r.id ∷ ids rs

  -- What is known of a path that a search from `role` has found with `levels` to go.
  pub record Found (permission : PermissionCode) (levels : ℕ) (role : Role) (stack : List ℕ)
      (path : List Role) : Type 0 where
    pub leads : PermissionPath permission role path
    pub bounded : length path ≤ levels
    pub avoids : Avoids stack path
    pub distinct : Distinct (ids path)

  Avoids-add :
      (n : ℕ) (stack : List ℕ) (path : List Role)
      → Avoids (add n stack) path
      → Avoids stack path × (¬ (In n (ids path)))
  Avoids-add n stack [] h = (tt, λ i. i)
  Avoids-add n stack (r ∷ path) h =
      let (rest, fresh) = Avoids-add n stack path h.1 in
      let split = contains-add n r.id stack in
      ((ground arith, rest), λ i. elim i [ inl e ↦ ground arith | inr j ↦ fresh j ])

  extend :
      (permission : PermissionCode) (levels : ℕ) (role parent : Role) (stack : List ℕ)
      (path : List Role)
      → contains role.id stack ≡ false
      → IsParent role parent
      → Found permission levels parent (add role.id stack) path
      → Found permission (suc levels) role stack (role ∷ path)
  extend permission levels role parent stack path fresh up f =
      let (rest, new) = Avoids-add role.id stack path f.avoids in
      record {
        leads = inherited role parent path up f.leads;
        bounded = omega (arith, f.bounded);
        avoids = (fresh, rest);
        distinct = (new, f.distinct);
      }

  module _ (permission : PermissionCode) where
    -- What is asked of the recursive call.
    abbrev Finds : ℕ → (Role → List ℕ → HierarchyResult (Option (List Role))) → Type 0
    Finds levels find =
        (role : Role) (stack : List ℕ) (path : List Role)
        → find role stack ≡ ok (some path)
        → Found permission levels role stack path

    find_in_parents-Found :
        (levels : ℕ) (find : Role → List ℕ → HierarchyResult (Option (List Role)))
        → Finds levels find
        → (role : Role) (stack : List ℕ) → contains role.id stack ≡ false
        → (ns : List ℕ) → ((n : ℕ) → In n ns → In n role.parent_role_ids)
        → (path : List Role)
        → find_in_parents roles find role (add role.id stack) ns ≡ ok (some path)
        → Found permission (suc levels) role stack path
    unfolding find_in_parents
    find_in_parents-Found levels find good role stack fresh [] sub path h = ground arith
    find_in_parents-Found levels find good role stack fresh (n ∷ ns) sub path h =
        let (parent, e, h₁) = >>=-eq-ok (next_parent roles role (add role.id stack) n) _ h in
        let (found, f, h₂) = >>=-eq-ok (find parent (add role.id stack)) _ h₁ in
        let (up, _, _) = next_parent-ok role (add role.id stack) n (sub n (inl refl)) e in
        pick parent up found f h₂
          (find_in_parents-Found levels find good role stack fresh ns (λ m i. sub m (inr i)) path)
      where
        pick :
            (parent : Role)
            → IsParent role parent
            → (found : Option (List Role)) → find parent (add role.id stack) ≡ ok found
            → (elim found [
              | some q ↦ ok (some (role ∷ q))
              | none ↦ find_in_parents roles find role (add role.id stack) ns
            ])
              ≡ ok (some path)
            → (find_in_parents roles find role (add role.id stack) ns ≡ ok (some path)
                → Found permission (suc levels) role stack path)
            → Found permission (suc levels) role stack path
        pick parent up none f h₂ rest = rest h₂
        pick parent up (some q) f h₂ rest =
            let e : role ∷ q ≡ path = ground arith in
            subst (Found permission (suc levels) role stack) e (
              extend permission levels role parent stack q fresh up
                (good parent (add role.id stack) q f))

    find_permission-step :
        (levels : ℕ) (role : Role) (stack : List ℕ)
        → contains role.id stack ≡ false
        → contains permission role.permissions ≡ false
        → find_permission roles permission (suc levels) role stack
          ≡ find_in_parents roles
              (find_permission roles permission levels)
              role
              (add role.id stack)
              (sort_ids role.parent_role_ids)
    unfolding find_permission
    find_permission-step levels role stack fresh missing = rw (fresh, missing)

    find_permission-Found : (levels : ℕ) → Finds levels (find_permission roles permission levels)
    unfolding find_permission
    find_permission-Found zero role stack path h = ground arith
    find_permission-Found (suc levels) role stack path h =
        elim (Bool-cases (contains role.id stack)) [
          | inl e ↦ ground arith
          | inr fresh ↦ elim (Bool-cases (contains permission role.permissions)) [
            | inl has ↦
                let e : role ∷ [] ≡ path = ground arith in
                subst (Found permission (suc levels) role stack) e (record {
                  leads = own role has;
                  bounded = omega arith;
                  avoids = (fresh, tt);
                  distinct = ((λ i. i), tt);
                })
            | inr missing ↦
                find_in_parents-Found levels (find_permission roles permission levels)
                  (find_permission-Found levels) role stack fresh (sort_ids role.parent_role_ids)
                  (λ n i. In-sort_ids n role.parent_role_ids i) path
                  (sym (find_permission-step levels role stack fresh missing) ∙ h)
          ]
        ]

  -- `to` is `from`, or is reached from it by stored parents, whatever their status.
  pub data Ancestor (to : Role) : Role → Type 0 where
    self : (from : Role) → from ≡ to → Ancestor to from
    above :
        (from parent : Role) (n : ℕ)
        → In n from.parent_role_ids
        → roles.get n ≡ some parent
        → Ancestor to parent
        → Ancestor to from

  module _ (permission : PermissionCode) where
    -- What is asked of the recursive call.
    abbrev Exhausts : (Role → List ℕ → HierarchyResult (Option (List Role))) → Type 0
    Exhausts find =
        (role : Role) (stack : List ℕ)
        → find role stack ≡ ok none
        → (to : Role) → Ancestor to role
        → contains permission to.permissions ≡ false

    find_in_parents-none :
        (find : Role → List ℕ → HierarchyResult (Option (List Role)))
        → Exhausts find
        → (role : Role) (stack ns : List ℕ) → ((n : ℕ) → In n ns → In n role.parent_role_ids)
        → find_in_parents roles find role stack ns ≡ ok none
        → (n : ℕ) (parent to : Role) → In n ns
        → roles.get n ≡ some parent
        → Ancestor to parent
        → contains permission to.permissions ≡ false
    unfolding find_in_parents
    find_in_parents-none find none-left role stack [] sub h n parent to i g a = absurd i
    find_in_parents-none find none-left role stack (m ∷ ns) sub h n parent to i g a =
        let (p, e, h₁) = >>=-eq-ok (next_parent roles role stack m) _ h in
        let (found, f, h₂) = >>=-eq-ok (find p stack) _ h₁ in
        let (_, _, q) = next_parent-ok role stack m (sub m (inl refl)) e in
        pick i p q found f h₂ (λ k j.
          find_in_parents-none find none-left role stack ns (λ l y. sub l (inr y)) k n parent to j g
            a)
      where
        pick :
            In n (m ∷ ns)
            → (p : Role) → roles.get m ≡ some p
            → (found : Option (List Role)) → find p stack ≡ ok found
            → (elim found [
              | some q ↦ ok (some (role ∷ q))
              | none ↦ find_in_parents roles find role stack ns
            ])
              ≡ ok none
            → (find_in_parents roles find role stack ns ≡ ok none
                → In n ns
                → contains permission to.permissions ≡ false)
            → contains permission to.permissions ≡ false
        pick i p q (some path) f h₂ rest = ground arith
        pick (inr j) p q none f h₂ rest = rest h₂ j
        pick (inl e) p q none f h₂ rest =
            let same : p ≡ parent = ground arith in
            none-left p stack f to (subst (Ancestor to) (sym same) a)

    find_permission-none : (levels : ℕ) → Exhausts (find_permission roles permission levels)
    unfolding find_permission
    find_permission-none zero role stack h to a = ground arith
    find_permission-none (suc levels) role stack h to (self _ e) = ground arith
    find_permission-none (suc levels) role stack h to (above _ parent n i g a) =
        find_in_parents-none (find_permission roles permission levels) (find_permission-none levels)
          role (add role.id stack) (sort_ids role.parent_role_ids)
          (λ m j. In-sort_ids m role.parent_role_ids j) (ground arith) n parent to
          (sort_ids-In n role.parent_role_ids i) g a

  pub require_available-ok :
      (n : ℕ) {root : Role}
      → require_available roles n ≡ ok root
      → (roles.get n ≡ some root) × (is_active root.status ≡ true) × (root.id ≡ n)
  unfolding require_available
  require_available-ok n h = elim (Option-cases (roles.get n)) [
    | inl e ↦ ground arith
    | inr (r, e) ↦ ground (arith, roles.get_id n r e)
  ]

  -- A path that `permission_path` returns begins at the Role that was asked for, which is stored and
  -- active; each next Role is a declared, stored, active and tenant-compatible parent of the one
  -- before; the last Role has the permission itself; no Role stands on it twice; and it has at most
  -- `max_depth + 1` Roles.
  pub permission_path_sound :
      (max_depth role_id : ℕ) (permission : PermissionCode) {path : List Role}
      → permission_path roles max_depth role_id permission ≡ ok (some path)
      → (root : Role) × (roles.get role_id ≡ some root)
        × (is_active root.status ≡ true)
        × PermissionPath permission root path
        × (length path ≤ suc max_depth)
        × Distinct (ids path)
  unfolding permission_path
  permission_path_sound max_depth role_id permission {path} h =
      let (root, e, f) = >>=-eq-ok (require_available roles role_id) _ h in
      let (g, active, _) = require_available-ok role_id e in
      let found = find_permission-Found permission (suc max_depth) root [] path f in
      (root, g, active, found.leads, found.bounded, found.distinct)

  -- Where `permission_path` returns `None`, the Role is stored and active, and neither it nor any
  -- Role above it, at any distance and of any status, has the permission.
  pub permission_path_complete :
      (max_depth role_id : ℕ) (permission : PermissionCode)
      → permission_path roles max_depth role_id permission ≡ ok none
      → (root : Role) × (roles.get role_id ≡ some root)
        × (is_active root.status ≡ true)
        × ((to : Role) → Ancestor to root → contains permission to.permissions ≡ false)
  unfolding permission_path
  permission_path_complete max_depth role_id permission h =
      let (root, e, f) = >>=-eq-ok (require_available roles role_id) _ h in
      let (g, active, _) = require_available-ok role_id e in
      (root, g, active, find_permission-none permission (suc max_depth) root [] f)
