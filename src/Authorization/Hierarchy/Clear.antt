-- ===== src/Authorization/Hierarchy/Clear.antt =====
-- When `ancestor_ids` returns: what stands above the Role is available, within the depth and without
-- cycles.
use pyiamkit.Prelude.{
  ℕ, zero, suc, ◌≡◌, refl, sym, ◌∙◌, subst, inl, inr, Bool, true, false, some, List, [], ◌∷◌, ok,
  contains, add, In, nat_eq, contains→In, Bool-cases, if◌then◌else◌, arith,
}
use pyiamkit.Authorization.Role.{Role, is_active}
use pyiamkit.Authorization.Hierarchy.Sorting.{sort_ids, In-sort_ids}
use pyiamkit.Authorization.Hierarchy.Coverage.{In-add_cases}
use pyiamkit.Authorization.Hierarchy.Ancestors.{collect_ancestors-step}
use pyiamkit.Authorization.Hierarchy.Reach.{Reaches, Reaches-trans, IsAcyclic}
use pyiamkit.Authorization.Hierarchy.{
  RoleRepository, HierarchyResult, edge_allowed, validate_edge, require_available, next_parent,
  collect_parents, collect_ancestors, ancestor_ids,
}

module _ (roles : RoleRepository) where
  -- At most `levels` Roles stand in a chain that begins at the Role; all above it are stored and
  -- active, and every edge is allowed.
  abbrev pub IsClear : ℕ → Role → Type 0
  IsClear zero role = ⊥
  IsClear (suc levels) role =
      (n : ℕ)
      → In n role.parent_role_ids
      → (p : Role) × (roles.get n ≡ some p)
        × (is_active p.status ≡ true)
        × (edge_allowed role.tenant_id p.tenant_id ≡ true)
        × IsClear levels p

  -- The Role is above everything on the stack.
  abbrev Above : List ℕ → ℕ → Type 0
  Above stack n = (s : ℕ) → In s stack → Reaches roles n s

  Above-fresh :
      IsAcyclic roles → (stack : List ℕ) (n : ℕ) → Above stack n → contains n stack ≡ false
  Above-fresh acyclic stack n above = elim (Bool-cases (contains n stack)) [
    | inl e ↦ absurd (acyclic n (above n (contains→In n stack e)))
    | inr e ↦ e
  ]

  Above-parent :
      (stack : List ℕ) (role : Role) (n : ℕ)
      → roles.get role.id ≡ some role
      → In n role.parent_role_ids
      → Above stack role.id
      → Above (add role.id stack) n
  Above-parent stack role n g i above s j = elim (In-add_cases s role.id stack j) [
    | inl e ↦ subst (Reaches roles n) (sym e) (Reaches.parent role.id role g i)
    | inr k ↦ Reaches-trans roles n role.id s (Reaches.parent role.id role g i) (above s k)
  ]

  -- What is asked of the recursive call.
  abbrev CanCollect : ℕ → (Role → List ℕ → List ℕ → HierarchyResult (List ℕ)) → Type 0
  CanCollect levels collect =
      (role : Role) (stack xs : List ℕ)
      → roles.get role.id ≡ some role
      → IsClear levels role
      → Above stack role.id
      → (ys : List ℕ) × (collect role stack xs ≡ ok ys)

  next_parent-returns :
      (role p : Role) (stack : List ℕ) (n : ℕ)
      → roles.get n ≡ some p
      → is_active p.status ≡ true
      → edge_allowed role.tenant_id p.tenant_id ≡ true
      → contains p.id stack ≡ false
      → next_parent roles role stack n ≡ ok p
  unfolding next_parent require_available validate_edge
  next_parent-returns role p stack n g a e c = ground arith

  require_available-returns :
      (n : ℕ) (root : Role)
      → roles.get n ≡ some root
      → is_active root.status ≡ true
      → require_available roles n ≡ ok root
  unfolding require_available
  require_available-returns n root g a = ground arith

  if_false : {A : Type 0} (b : Bool) (x y : A) → b ≡ false → (if b then x else y) ≡ y
  if_false b x y h = ground arith

  if_true : {A : Type 0} (b : Bool) (x y : A) → b ≡ true → (if b then x else y) ≡ x
  if_true b x y h = ground arith

  collect_parents-step :
      (collect : Role → List ℕ → List ℕ → HierarchyResult (List ℕ)) (role p : Role)
      (stack ns xs zs : List ℕ) (n : ℕ)
      → next_parent roles role stack n ≡ ok p
      → (if contains p.id xs then ok xs else collect p stack (add p.id xs)) ≡ ok zs
      → collect_parents roles collect role stack (n ∷ ns) xs
        ≡ collect_parents roles collect role stack ns zs
  unfolding collect_parents
  collect_parents-step collect role p stack ns xs zs n e f = rw (e, f) refl

  collect_parents-returns :
      IsAcyclic roles
      → (levels : ℕ) (collect : Role → List ℕ → List ℕ → HierarchyResult (List ℕ))
      → CanCollect levels collect
      → (role : Role) (stack : List ℕ) → roles.get role.id ≡ some role
      → IsClear (suc levels) role
      → Above stack role.id
      → (ns : List ℕ) → ((n : ℕ) → In n ns → In n role.parent_role_ids)
      → (xs : List ℕ)
      → (ys : List ℕ) × (collect_parents roles collect role (add role.id stack) ns xs ≡ ok ys)
  unfolding collect_parents
  collect_parents-returns acyclic levels collect good role stack g clear above [] sub xs =
      (xs, refl)
  collect_parents-returns acyclic levels collect good role stack g clear above (n ∷ ns) sub xs =
      let i = sub n (inl refl) in
      let (p, found, active, allowed, rest) = clear n i in
      let same : p.id ≡ n = roles.get_id n p found in
      let over : Above (add role.id stack) p.id =
        subst (Above (add role.id stack)) (sym same) (Above-parent stack role n g i above) in
      let own : roles.get p.id ≡ some p = subst (λ k. roles.get k ≡ some p) (sym same) found in
      let step =
        next_parent-returns role p (add role.id stack) n found active allowed
          (Above-fresh acyclic (add role.id stack) p.id over) in
      elim (Bool-cases (contains p.id xs)) [
        | inl old ↦
            let (ys, e) =
              collect_parents-returns acyclic levels collect good role stack g clear above ns
                (λ m j. sub m (inr j)) xs in
            (
              ys,
              collect_parents-step collect role p (add role.id stack) ns xs xs n step
                    (if_true (contains p.id xs) (ok xs) _ old)
                  ∙ e,
            )
        | inr new ↦
            let (zs, f) = good p (add role.id stack) (add p.id xs) own rest over in
            let (ys, e) =
              collect_parents-returns acyclic levels collect good role stack g clear above ns
                (λ m j. sub m (inr j)) zs in
            (
              ys,
              collect_parents-step collect role p (add role.id stack) ns xs zs n step
                    (if_false (contains p.id xs) (ok xs) _ new ∙ f)
                  ∙ e,
            )
      ]

  collect_ancestors-returns :
      IsAcyclic roles → (levels : ℕ) → CanCollect levels (collect_ancestors roles levels)
  unfolding collect_ancestors
  collect_ancestors-returns acyclic zero role stack xs g clear above = absurd clear
  collect_ancestors-returns acyclic (suc levels) role stack xs g clear above =
      let (ys, e) =
        collect_parents-returns acyclic levels (collect_ancestors roles levels)
          (collect_ancestors-returns acyclic levels) role stack g clear above
          (sort_ids role.parent_role_ids) (λ n i. In-sort_ids n role.parent_role_ids i) xs in
      (
        ys,
        collect_ancestors-step roles levels role stack xs (Above-fresh acyclic stack role.id above)
            ∙ e,
      )

  -- Where no Role is above itself, `ancestor_ids` of a stored and active Role returns if all above it
  -- are stored and active, the tenants allow every edge, and no chain has more than `max_depth + 1`
  -- Roles.
  pub ancestor_ids-returns :
      (max_depth role_id : ℕ) (root : Role)
      → IsAcyclic roles
      → roles.get role_id ≡ some root
      → is_active root.status ≡ true
      → IsClear (suc max_depth) root
      → (ids : List ℕ) × (ancestor_ids roles max_depth role_id ≡ ok ids)
  unfolding ancestor_ids
  ancestor_ids-returns max_depth role_id root acyclic g a clear =
      let same : root.id ≡ role_id = roles.get_id role_id root g in
      let own : roles.get root.id ≡ some root = subst (λ k. roles.get k ≡ some root) (sym same) g in
      let (ids, e) =
        collect_ancestors-returns acyclic (suc max_depth) root [] [] own clear (λ s i. absurd i) in
      (ids, rw (require_available-returns role_id root g a, ancestor_ids) e)
