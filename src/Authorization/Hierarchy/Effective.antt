-- ===== src/Authorization/Hierarchy/Effective.antt =====
-- The Roles and permissions of a hierarchy, by reachability, and their agreement with the search for
-- one permission.
use pyiamkit.Prelude.{
  ℕ, suc, ◌≡◌, refl, sym, ap, ◌∙◌, subst, ◌⊎◌, inl, inr, ◌↔◌, Bool, true, false, ◌||◌, Option, none,
  some, List, [], ◌∷◌, ok, >>=-eq-ok, contains, add, any, In, contains-add, Bool-cases, arith,
}
use pyiamkit.Authorization.Values.{PermissionCode, permission_eq}
use pyiamkit.Authorization.Role.{Role}
use pyiamkit.Authorization.Hierarchy.Paths.{
  Ancestor, require_available-ok, PermissionPath, permission_path_sound, permission_path_complete,
}
use pyiamkit.Authorization.Hierarchy.Coverage.{IsNew, walk-Extends}
use pyiamkit.Authorization.Hierarchy.{
  RoleRepository, Visit, require_available, walk, resolve_roles, permission_path, add_all,
  union_permissions, effective_permissions,
}

abbrev start : Visit
start = record { resolved = []; visited = [] }

module _ (roles : RoleRepository) where
  -- Everything above a resolved Role is resolved.
  closed-Ancestor :
      (root : Role) (v : Visit)
      → ((x : Role) → In x v.resolved → IsNew roles root v x)
      → ((n : ℕ) → In n v.visited → (x : Role) × In x v.resolved × (x.id ≡ n))
      → (to from : Role) → Ancestor roles to from
      → In from v.resolved
      → In to v.resolved
  closed-Ancestor root v new named to from (Ancestor.self _ e) i = subst (λ x. In x v.resolved) e i
  closed-Ancestor root v new named to from (Ancestor.above _ parent n d g a) i =
      let n_seen = (new from i).closed n d in
      let (x, j, e) = named n n_seen in
      let s = (new x j).stored in
      let same : x ≡ parent = ground arith in
      closed-Ancestor root v new named to parent a (subst (λ y. In y v.resolved) same j)

  -- `resolve_roles` returns the stored Role and the Roles above it, at any distance: these, and no
  -- others.
  pub resolve_roles-exact :
      (max_depth role_id : ℕ) {resolved : List Role}
      → resolve_roles roles max_depth role_id ≡ ok resolved
      → (root : Role) × (roles.get role_id ≡ some root)
        × ((x : Role) → In x resolved ↔ Ancestor roles x root)
  unfolding resolve_roles
  resolve_roles-exact max_depth role_id {resolved} h =
      let (root, e, h₁) = >>=-eq-ok (require_available roles role_id) _ h in
      let (v, f, h₂) = >>=-eq-ok (walk roles (suc max_depth) root [] start) _ h₁ in
      let (g, _, same) = require_available-ok roles role_id e in
      let stored : roles.get root.id ≡ some root = rw same g in
      let (grown, seen) = walk-Extends roles (suc max_depth) root [] start v stored f in
      let out : v.resolved ≡ resolved = ground arith in
      let new = λ (x : Role) (i : In x v.resolved). only x (grown.fresh x i) in
      let named = λ (n : ℕ) (i : In n v.visited). only_name v n (grown.named n i) in
      let (x, j, p) = named root.id seen in
      let at_root : x ≡ root = let s = (new x j).stored in ground arith in
      let top : In root v.resolved = subst (λ y. In y v.resolved) at_root j in
      (
        root,
        g,
        λ y. (
          (λ i. (new y (subst (In y) (sym out) i)).reached),
          λ a. subst (In y) out (closed-Ancestor root v new named y root a top),
        ),
      )
    where
      only : {w : Visit} {r : Role} (x : Role) → ⊥ ⊎ IsNew roles r w x → IsNew roles r w x
      only x (inl z) = absurd z
      only x (inr n) = n

      only_name :
          (w : Visit) (n : ℕ)
          → ⊥ ⊎ ((x : Role) × In x w.resolved × (x.id ≡ n))
          → (x : Role) × In x w.resolved × (x.id ≡ n)
      only_name w n (inl z) = absurd z
      only_name w n (inr t) = t

abbrev has : PermissionCode → Role → Bool
has p r = contains p r.permissions

contains-add_all :
    (p : PermissionCode) (ps acc : List PermissionCode)
    → contains p (add_all ps acc) ≡ (contains p ps || contains p acc)
contains-add_all p [] acc = refl
contains-add_all p (q ∷ ps) acc =
    ground (arith, contains-add_all p ps (add q acc), contains-add q p acc)

contains-union :
    (p : PermissionCode) (rs : List Role) (acc : List PermissionCode)
    → contains p (union_permissions rs acc) ≡ (any (has p) rs || contains p acc)
contains-union p [] acc = refl
contains-union p (r ∷ rs) acc =
    ground
      (arith, contains-union p rs (add_all r.permissions acc), contains-add_all p r.permissions acc)

any→In : (p : Role → Bool) (rs : List Role) → any p rs ≡ true → (r : Role) × In r rs × (p r ≡ true)
any→In p [] h = absurd (cc h)
any→In p (r ∷ rs) h = elim (Bool-cases (p r)) [
  | inl e ↦ (r, inl refl, e)
  | inr e ↦ let (s, i, q) = any→In p rs (ground arith) in (s, inr i, q)
]

In→any : (p : Role → Bool) (r : Role) (rs : List Role) → In r rs → p r ≡ true → any p rs ≡ true
In→any p r [] i h = absurd i
In→any p r (s ∷ rs) i h = ground (arith, In→any p r rs)

module _ (roles : RoleRepository) where
  -- A permission path ends at a Role above its first, which has the permission.
  pub path-end :
      (p : PermissionCode) (role : Role) (path : List Role)
      → PermissionPath roles p role path
      → (to : Role) × Ancestor roles to role × (has p to ≡ true)
  path-end p role path (PermissionPath.own _ h) = (role, Ancestor.self role refl, h)
  path-end p role path (PermissionPath.inherited _ parent rest up more) =
      let (to, a, h) = path-end p parent rest more in
      (to, Ancestor.above role parent parent.id up.declared up.stored a, h)

  abbrev pub is_found : Option (List Role) → Bool
  is_found none = false
  is_found (some _) = true

  -- A permission is among the effective permissions of a Role exactly if the Role itself or a Role
  -- above it has it.
  pub effective_permissions_iff :
      (max_depth role_id : ℕ) {ps : List PermissionCode} (p : PermissionCode)
      → effective_permissions roles max_depth role_id ≡ ok ps
      → (root : Role) × (roles.get role_id ≡ some root)
        × ((contains p ps ≡ true)
            ↔ ((to : Role) × Ancestor roles to root × (contains p to.permissions ≡ true)))
  unfolding effective_permissions
  effective_permissions_iff max_depth role_id {ps} p h =
      let (rs, e, h₁) = >>=-eq-ok (resolve_roles roles max_depth role_id) _ h in
      let (root, g, exact) = resolve_roles-exact roles max_depth role_id e in
      let out : union_permissions rs [] ≡ ps = ground arith in
      let sum : contains p ps ≡ (any (has p) rs || false) =
        ap (contains p) (sym out) ∙ contains-union p rs [] in
      (
        root,
        g,
        (
          (λ q.
              let (r, i, has_it) = any→In (has p) rs (ground arith) in (r, (exact r).0 i, has_it)),
          λ t. let q = In→any (has p) t.0 rs ((exact t.0).1 t.1) t.2 in ground arith,
        ),
      )

  -- Where the two searches of a Role's hierarchy both return, they agree: a path to the permission is
  -- found exactly if it is among the effective permissions.
  pub permission_path-effective :
      (max_depth role_id : ℕ) (p : PermissionCode) {ps : List PermissionCode}
      {found : Option (List Role)}
      → effective_permissions roles max_depth role_id ≡ ok ps
      → permission_path roles max_depth role_id p ≡ ok found
      → contains p ps ≡ is_found found
  permission_path-effective max_depth role_id p {ps} {found = some path} h k =
      let (root, g, iff) = effective_permissions_iff max_depth role_id p h in
      let (r, g', _, leads, _, _) = permission_path_sound roles max_depth role_id p k in
      let same : r ≡ root = ground arith in
      iff.1 (
        subst (λ x. (to : Role) × Ancestor roles to x × (has p to ≡ true)) same
          (path-end p r path leads))
  permission_path-effective max_depth role_id p {ps} {found = none} h k =
      let (root, g, iff) = effective_permissions_iff max_depth role_id p h in
      let (r, g', _, no_one) = permission_path_complete roles max_depth role_id p k in
      let same : r ≡ root = ground arith in
      elim (Bool-cases (contains p ps)) [
        | inl q ↦
            let (to, a, has_it) = iff.0 q in
            let missing = no_one to (subst (Ancestor roles to) (sym same) a) in ground arith
        | inr q ↦ q
      ]
