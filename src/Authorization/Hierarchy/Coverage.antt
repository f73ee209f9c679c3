-- ===== src/Authorization/Hierarchy/Coverage.antt =====
-- What `resolve_roles` collects: the Role itself and every Role above it, and nothing else; and that
-- `effective_permissions` and `permission_path` agree.
use pyiamkit.Prelude.{
  ℕ, zero, suc, ◌≡◌, refl, sym, ◌∙◌, subst, ◌⊎◌, inl, inr, false, some, List, [], ◌∷◌, ◌++◌, ok,
  >>=-eq-ok, contains, add, In, nat_eq, contains-add, contains→In, In→contains, Bool-cases,
  In-append, In-append_left, In-append_right, arith,
}
use pyiamkit.Authorization.Values.{permission_eq}
use pyiamkit.Authorization.Role.{Role}
use pyiamkit.Authorization.Hierarchy.Sorting.{sort_ids, sort_ids-In, In-sort_ids}
use pyiamkit.Authorization.Hierarchy.Paths.{IsParent, next_parent-ok, Ancestor}
use pyiamkit.Authorization.Hierarchy.{
  RoleRepository, HierarchyResult, Visit, next_parent, walk_parents, walk,
}

pub In-add : (n m : ℕ) (xs : List ℕ) → (n ≡ m) ⊎ In n xs → In n (add m xs)
In-add n m xs h = contains→In n (add m xs) (contains-add m n xs ∙ ground (arith, In→contains n xs))

pub In-add_cases : (n m : ℕ) (xs : List ℕ) → In n (add m xs) → (n ≡ m) ⊎ In n xs
In-add_cases n m xs h =
    ground (arith, In→contains n (add m xs) h, contains-add m n xs, contains→In n xs)

module _ (roles : RoleRepository) where
  -- A Role that a walk from `role` has added: it is stored, stands above `role`, and its parents have
  -- been visited.
  pub record IsNew (role : Role) (v : Visit) (x : Role) : Type 0 where
    pub stored : roles.get x.id ≡ some x
    pub reached : Ancestor roles x role
    pub closed : (n : ℕ) → In n x.parent_role_ids → In n v.visited

  -- What a walk from `role` has made of `v`.
  pub record Extends (role : Role) (v v' : Visit) : Type 0 where
    pub kept : (n : ℕ) → In n v.visited → In n v'.visited
    pub held : (x : Role) → In x v.resolved → In x v'.resolved
    pub fresh : (x : Role) → In x v'.resolved → In x v.resolved ⊎ IsNew role v' x
    pub named :
        (n : ℕ) → In n v'.visited → In n v.visited ⊎ ((x : Role) × In x v'.resolved × (x.id ≡ n))

  Extends-refl : (role : Role) (v : Visit) → Extends role v v
  Extends-refl role v = record {
    kept = λ n i. i;
    held = λ x i. i;
    fresh = λ x i. inl i;
    named = λ n i. inl i;
  }

  IsNew-later :
      (role : Role) (v v' : Visit) (x : Role) → Extends role v v' → IsNew role v x → IsNew role v' x
  IsNew-later role v v' x e n = record {
    stored = n.stored;
    reached = n.reached;
    closed = λ m i. e.kept m (n.closed m i);
  }

  Extends-trans :
      (role : Role) (v w u : Visit) → Extends role v w → Extends role w u → Extends role v u
  Extends-trans role v w u a b = record {
    kept = λ n i. b.kept n (a.kept n i);
    held = λ x i. b.held x (a.held x i);
    fresh = λ x i. older x (b.fresh x i);
    named = λ n i. older_name n (b.named n i);
  }
    where
      older : (x : Role) → In x w.resolved ⊎ IsNew role u x → In x v.resolved ⊎ IsNew role u x
      older x (inr n) = inr n
      older x (inl i) = elim (a.fresh x i) [
        | inl j ↦ inl j
        | inr n ↦ inr (IsNew-later role w u x b n)
      ]

      older_name :
          (n : ℕ)
          → In n w.visited ⊎ ((x : Role) × In x u.resolved × (x.id ≡ n))
          → In n v.visited ⊎ ((x : Role) × In x u.resolved × (x.id ≡ n))
      older_name n (inr t) = inr t
      older_name n (inl i) = elim (a.named n i) [
        | inl j ↦ inl j
        | inr (x, j, e) ↦ inr (x, b.held x j, e)
      ]

  -- A walk from a parent is a walk from the child.
  Extends-child :
      (role parent : Role) (v w : Visit)
      → IsParent roles role parent
      → Extends parent v w
      → Extends role v w
  Extends-child role parent v w up a = record {
    kept = a.kept;
    held = a.held;
    fresh = λ x i. lift x (a.fresh x i);
    named = a.named;
  }
    where
      lift : (x : Role) → In x v.resolved ⊎ IsNew parent w x → In x v.resolved ⊎ IsNew role w x
      lift x (inl i) = inl i
      lift x (inr n) = inr (record {
        stored = n.stored;
        reached = Ancestor.above role parent parent.id up.declared up.stored n.reached;
        closed = n.closed;
      })

  -- What is asked of the recursive call.
  abbrev pub Walks : (Role → List ℕ → Visit → HierarchyResult Visit) → Type 0
  Walks step =
      (role : Role) (stack : List ℕ) (v v' : Visit)
      → roles.get role.id ≡ some role
      → step role stack v ≡ ok v'
      → Extends role v v' × In role.id v'.visited

  walk_parents-Extends :
      (step : Role → List ℕ → Visit → HierarchyResult Visit)
      → Walks step
      → (role : Role) (stack ns : List ℕ) → ((n : ℕ) → In n ns → In n role.parent_role_ids)
      → (v v' : Visit) → walk_parents roles step role stack ns v ≡ ok v'
      → Extends role v v' × ((n : ℕ) → In n ns → In n v'.visited)
  unfolding walk_parents
  walk_parents-Extends step good role stack [] sub v v' h =
      let e : v ≡ v' = ground arith in
      subst (λ u. Extends role v u × ((n : ℕ) → ⊥ → In n u.visited)) e
        (Extends-refl role v, λ n i. absurd i)
  walk_parents-Extends step good role stack (m ∷ ns) sub v v' h =
      let (parent, e, h₁) = >>=-eq-ok (next_parent roles role stack m) _ h in
      let (w, f, h₂) = >>=-eq-ok (step parent stack v) _ h₁ in
      let (up, _, g) = next_parent-ok roles role stack m (sub m (inl refl)) e in
      let (one, seen) = good parent stack v w up.stored f in
      let (more, all_seen) =
        walk_parents-Extends step good role stack ns (λ n i. sub n (inr i)) w v' h₂ in
      let same : m ≡ parent.id = sym (roles.get_id m parent g) in
      (
        Extends-trans role v w v' (Extends-child role parent v w up one) more,
        λ n i. elim i [
          | inl p ↦ more.kept n (subst (λ k. In k w.visited) (sym (p ∙ same)) seen)
          | inr j ↦ all_seen n j
        ],
      )

  -- The state with which the loop over the parents begins.
  abbrev entered : Role → Visit → Visit
  entered role v = record { resolved = v.resolved ++ role ∷ []; visited = add role.id v.visited }

  entered-Extends :
      (role : Role) (v v' : Visit)
      → roles.get role.id ≡ some role
      → Extends role (entered role v) v'
      → ((n : ℕ) → In n role.parent_role_ids → In n v'.visited)
      → Extends role v v'
  entered-Extends role v v' g a parents = record {
    kept = λ n i. a.kept n (In-add n role.id v.visited (inr i));
    held = λ x i. a.held x (In-append_left x v.resolved (role ∷ []) i);
    fresh = λ x i. known x (a.fresh x i);
    named = λ n i. known_name n (a.named n i);
  }
    where
      last : (x : Role) → In x v.resolved ⊎ In x (role ∷ []) → In x v.resolved ⊎ IsNew role v' x
      last x (inl i) = inl i
      last x (inr (inr z)) = absurd z
      last x (inr (inl e)) = inr (
          subst (IsNew role v') (sym e)
            (record { stored = g; reached = Ancestor.self role refl; closed = parents }))

      known :
          (x : Role)
          → In x (v.resolved ++ role ∷ []) ⊎ IsNew role v' x
          → In x v.resolved ⊎ IsNew role v' x
      known x (inr n) = inr n
      known x (inl i) = last x (In-append x v.resolved (role ∷ []) i)

      known_name :
          (n : ℕ)
          → In n (add role.id v.visited) ⊎ ((x : Role) × In x v'.resolved × (x.id ≡ n))
          → In n v.visited ⊎ ((x : Role) × In x v'.resolved × (x.id ≡ n))
      known_name n (inr t) = inr t
      known_name n (inl i) = elim (In-add_cases n role.id v.visited i) [
        | inl e ↦
            inr (role, a.held role (In-append_right role v.resolved (role ∷ []) (inl refl)), sym e)
        | inr j ↦ inl j
      ]

  walk-step :
      (levels : ℕ) (role : Role) (stack : List ℕ) (v : Visit)
      → contains role.id stack ≡ false
      → contains role.id v.visited ≡ false
      → walk roles (suc levels) role stack v
        ≡ walk_parents roles
            (walk roles levels)
            role
            (add role.id stack)
            (sort_ids role.parent_role_ids)
            (entered role v)
  unfolding walk
  walk-step levels role stack v fresh new = rw (fresh, new)

  pub walk-Extends : (levels : ℕ) → Walks (walk roles levels)
  unfolding walk
  walk-Extends zero role stack v v' g h = ground arith
  walk-Extends (suc levels) role stack v v' g h = elim (Bool-cases (contains role.id stack)) [
    | inl e ↦ ground arith
    | inr fresh ↦ elim (Bool-cases (contains role.id v.visited)) [
      | inl old ↦
          let e : v ≡ v' = ground arith in
          subst (λ u. Extends role v u × In role.id u.visited) e
            (Extends-refl role v, contains→In role.id v.visited old)
      | inr new ↦
          let (more, parents) =
            walk_parents-Extends (walk roles levels) (walk-Extends levels) role (add role.id stack)
              (sort_ids role.parent_role_ids) (λ n i. In-sort_ids n role.parent_role_ids i)
              (entered role v) v' (sym (walk-step levels role stack v fresh new) ∙ h) in
          (
            entered-Extends role v v' g more
                (λ n i. parents n (sort_ids-In n role.parent_role_ids i)),
            more.kept role.id (In-add role.id role.id v.visited (inl refl)),
          )
    ]
  ]
