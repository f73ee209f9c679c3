-- ===== src/Authorization/Hierarchy/Ancestors.antt =====
-- What `ancestor_ids` gives: the identifiers that are reachable from the Role, and no others.
use pyiamkit.Prelude.{
  ℕ, zero, suc, ◌≡◌, refl, sym, ◌∙◌, subst, ◌⊎◌, inl, inr, ◌↔◌, false, some, List, [], ◌∷◌, ok,
  >>=-eq-ok, contains, add, In, nat_eq, contains→In, Bool-cases, if◌then◌else◌, arith,
}
use pyiamkit.Authorization.Role.{Role}
use pyiamkit.Authorization.Hierarchy.Sorting.{sort_ids, sort_ids-In, In-sort_ids}
use pyiamkit.Authorization.Hierarchy.Paths.{IsParent, next_parent-ok, require_available-ok}
use pyiamkit.Authorization.Hierarchy.Coverage.{In-add, In-add_cases}
use pyiamkit.Authorization.Hierarchy.Reach.{Reaches, Reaches-In}
use pyiamkit.Authorization.Hierarchy.{
  RoleRepository, HierarchyResult, require_available, next_parent, collect_parents,
  collect_ancestors, ancestor_ids,
}

module _ (roles : RoleRepository) where
  -- An identifier that a search from `role` has added: it is reachable from the Role, it is that of a
  -- stored Role, and the parents of that Role have been added.
  record IsNew (role : Role) (xs : List ℕ) (n : ℕ) : Type 0 where
    reached : Reaches roles n role.id
    found : Role
    stored : roles.get n ≡ some found
    closed : (m : ℕ) → In m found.parent_role_ids → In m xs

  -- What a search from `role` has made of the set.
  record Gathers (role : Role) (xs ys : List ℕ) : Type 0 where
    kept : (n : ℕ) → In n xs → In n ys
    fresh : (n : ℕ) → In n ys → In n xs ⊎ IsNew role ys n

  Gathers-refl : (role : Role) (xs : List ℕ) → Gathers role xs xs
  Gathers-refl role xs = record { kept = λ n i. i; fresh = λ n i. inl i }

  Gathers-trans :
      (role : Role) (xs ys zs : List ℕ)
      → Gathers role xs ys
      → Gathers role ys zs
      → Gathers role xs zs
  Gathers-trans role xs ys zs a b = record {
    kept = λ n i. b.kept n (a.kept n i);
    fresh = λ n i. older n (b.fresh n i);
  }
    where
      later : (n : ℕ) → In n xs ⊎ IsNew role ys n → In n xs ⊎ IsNew role zs n
      later n (inl i) = inl i
      later n (inr w) = inr (record {
        reached = w.reached;
        found = w.found;
        stored = w.stored;
        closed = λ m i. b.kept m (w.closed m i);
      })

      older : (n : ℕ) → In n ys ⊎ IsNew role zs n → In n xs ⊎ IsNew role zs n
      older n (inl i) = later n (a.fresh n i)
      older n (inr w) = inr w

  -- Adding a parent and searching from it is a search from the child.
  Gathers-child :
      (role parent : Role) (xs ys : List ℕ)
      → roles.get role.id ≡ some role
      → IsParent roles role parent
      → Gathers parent (add parent.id xs) ys
      → ((n : ℕ) → In n parent.parent_role_ids → In n ys)
      → Gathers role xs ys
  Gathers-child role parent xs ys g up a parents = record {
    kept = λ n i. a.kept n (In-add n parent.id xs (inr i));
    fresh = λ n i. lift n (a.fresh n i);
  }
    where
      first : (n : ℕ) → (n ≡ parent.id) ⊎ In n xs → In n xs ⊎ IsNew role ys n
      first n (inr i) = inl i
      first n (inl e) = inr (
          subst (IsNew role ys) (sym e) (record {
            reached = Reaches.parent role.id role g up.declared;
            found = parent;
            stored = up.stored;
            closed = parents;
          }))

      lift : (n : ℕ) → In n (add parent.id xs) ⊎ IsNew parent ys n → In n xs ⊎ IsNew role ys n
      lift n (inl i) = first n (In-add_cases n parent.id xs i)
      lift n (inr w) = inr (record {
        reached = Reaches.above role.id parent.id role g up.declared w.reached;
        found = w.found;
        stored = w.stored;
        closed = w.closed;
      })

  -- What is asked of the recursive call.
  abbrev Collects : (Role → List ℕ → List ℕ → HierarchyResult (List ℕ)) → Type 0
  Collects collect =
      (role : Role) (stack xs ys : List ℕ)
      → roles.get role.id ≡ some role
      → collect role stack xs ≡ ok ys
      → Gathers role xs ys × ((n : ℕ) → In n role.parent_role_ids → In n ys)

  -- One parent, which may have been added before.
  one_parent :
      (collect : Role → List ℕ → List ℕ → HierarchyResult (List ℕ))
      → Collects collect
      → (role parent : Role) (stack xs : List ℕ) {ys : List ℕ} → roles.get role.id ≡ some role
      → IsParent roles role parent
      → (if contains parent.id xs then ok xs else collect parent stack (add parent.id xs)) ≡ ok ys
      → Gathers role xs ys × In parent.id ys
  one_parent collect good role parent stack xs {ys} g up h =
      elim (Bool-cases (contains parent.id xs)) [
        | inl old ↦
            let e : xs ≡ ys = ground arith in
            subst (λ zs. Gathers role xs zs × In parent.id zs) e
              (Gathers-refl role xs, contains→In parent.id xs old)
        | inr new ↦
            let (a, parents) = good parent stack (add parent.id xs) ys up.stored (ground arith) in
            (
              Gathers-child role parent xs ys g up a parents,
              a.kept parent.id (In-add parent.id parent.id xs (inl refl)),
            )
      ]

  collect_parents-Gathers :
      (collect : Role → List ℕ → List ℕ → HierarchyResult (List ℕ))
      → Collects collect
      → (role : Role) (stack ns : List ℕ) → ((n : ℕ) → In n ns → In n role.parent_role_ids)
      → (xs ys : List ℕ) → roles.get role.id ≡ some role
      → collect_parents roles collect role stack ns xs ≡ ok ys
      → Gathers role xs ys × ((n : ℕ) → In n ns → In n ys)
  unfolding collect_parents
  collect_parents-Gathers collect good role stack [] sub xs ys g h =
      let e : xs ≡ ys = ground arith in
      subst (λ zs. Gathers role xs zs × ((n : ℕ) → ⊥ → In n zs)) e
        (Gathers-refl role xs, λ n i. absurd i)
  collect_parents-Gathers collect good role stack (m ∷ ns) sub xs ys g h =
      let (parent, e, h₁) = >>=-eq-ok (next_parent roles role stack m) _ h in
      let (zs, f, h₂) =
        >>=-eq-ok (if contains parent.id xs then ok xs else collect parent stack (add parent.id xs))
          _ h₁ in
      let (up, _, p) = next_parent-ok roles role stack m (sub m (inl refl)) e in
      let (a, seen) = one_parent collect good role parent stack xs g up f in
      let (b, rest) =
        collect_parents-Gathers collect good role stack ns (λ n i. sub n (inr i)) zs ys g h₂ in
      let same : parent.id ≡ m = roles.get_id m parent p in
      (
        Gathers-trans role xs zs ys a b,
        λ n i. elim i [
          | inl q ↦ b.kept n (subst (λ k. In k zs) (same ∙ sym q) seen)
          | inr j ↦ rest n j
        ],
      )

  pub collect_ancestors-step :
      (levels : ℕ) (role : Role) (stack xs : List ℕ)
      → contains role.id stack ≡ false
      → collect_ancestors roles (suc levels) role stack xs
        ≡ collect_parents roles
            (collect_ancestors roles levels)
            role
            (add role.id stack)
            (sort_ids role.parent_role_ids)
            xs
  unfolding collect_ancestors
  collect_ancestors-step levels role stack xs fresh = rw fresh refl

  collect_ancestors-Gathers : (levels : ℕ) → Collects (collect_ancestors roles levels)
  unfolding collect_ancestors
  collect_ancestors-Gathers zero role stack xs ys g h = ground arith
  collect_ancestors-Gathers (suc levels) role stack xs ys g h =
      elim (Bool-cases (contains role.id stack)) [
        | inl e ↦ ground arith
        | inr fresh ↦
            let (a, parents) =
              collect_parents-Gathers (collect_ancestors roles levels)
                (collect_ancestors-Gathers levels) role (add role.id stack)
                (sort_ids role.parent_role_ids) (λ n i. In-sort_ids n role.parent_role_ids i) xs ys
                g (sym (collect_ancestors-step levels role stack xs fresh) ∙ h) in
            (a, λ n i. parents n (sort_ids-In n role.parent_role_ids i))
      ]

  -- Where `ancestor_ids` returns, it gives the identifiers to which a chain of declared parents of
  -- stored Roles leads from the Role, at any distance: all of them, and no others.
  pub ancestor_ids-exact :
      (max_depth role_id : ℕ) {ids : List ℕ}
      → ancestor_ids roles max_depth role_id ≡ ok ids
      → (n : ℕ) → In n ids ↔ Reaches roles n role_id
  unfolding ancestor_ids
  ancestor_ids-exact max_depth role_id {ids} h n =
      let (root, e, f) = >>=-eq-ok (require_available roles role_id) _ h in
      let (g, _, same) = require_available-ok roles role_id e in
      let stored : roles.get root.id ≡ some root = rw same g in
      let (a, parents) = collect_ancestors-Gathers (suc max_depth) root [] [] ids stored f in
      (
        λ i. subst (Reaches roles n) same (only n (a.fresh n i)).reached,
        λ r.
            Reaches-In roles ids
              (λ k m role i q j.
                let w = only k (a.fresh k i) in
                let x : w.found ≡ role = let s = w.stored in ground arith in
                w.closed m (subst (λ (z : Role). In m z.parent_role_ids) (sym x) j))
              n role_id
              (λ role m q j.
                let x : root ≡ role = ground arith in
                parents m (subst (λ (z : Role). In m z.parent_role_ids) (sym x) j))
              r,
      )
    where
      only : {root : Role} (k : ℕ) → ⊥ ⊎ IsNew root ids k → IsNew root ids k
      only k (inl i) = absurd i
      only k (inr w) = w
