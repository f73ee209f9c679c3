-- ===== src/Authorization/Governance/Duties.antt =====
-- Static separation of duties: what the evaluator tells of the Roles that a subject holds, itself or
-- by inheritance.
use pyiamkit.Prelude.{
  ℕ, ◌≡◌, refl, sym, ap, ◌∙◌, subst, ◌↔◌, ◌⊎◌, inl, inr, none, some, List, [], ◌∷◌, ◌++◌, ok, err,
  ◌>>=◌, >>=-eq-ok, >>=-assoc, >>=-cong, add, In, nat_eq, All, contains-add, contains→In,
  In→contains, arith,
}
use pyiamkit.Authorization.Role.{Role}
use pyiamkit.Authorization.RoleBinding.{RoleBinding}
use pyiamkit.Authorization.Hierarchy.{RoleRepository, HierarchyResult, resolve_roles}
use pyiamkit.Authorization.Hierarchy.Paths.{Ancestor}
use pyiamkit.Authorization.Hierarchy.Effective.{resolve_roles-exact}
use pyiamkit.Authorization.Governance.Constraints.{first_violation-none}
use pyiamkit.Authorization.Governance.{
  MutuallyExclusiveRolesRule, add_role_ids, check_conflict, find_conflict, effective_role_ids,
  detect_runtime, candidate_ids, ensure_assignment_allowed,
}

In-add_role_ids :
    (n : ℕ) (rs : List Role) (ids : List ℕ)
    → In n (add_role_ids rs ids) ↔ (In n ids ⊎ ((r : Role) × In r rs × (r.id ≡ n)))
In-add_role_ids n [] ids = ((λ i. inl i), λ h. elim h [ inl i ↦ i | inr (_, z, _) ↦ absurd z ])
In-add_role_ids n (r ∷ rs) ids =
    let (there, back) = In-add_role_ids n rs (add r.id ids) in
    ((λ i. forth (there i)), λ h. back (over h))
  where
    split : In n (add r.id ids) → (n ≡ r.id) ⊎ In n ids
    split i =
        ground (arith, In→contains n (add r.id ids) i, contains-add r.id n ids, contains→In n ids)

    join : (n ≡ r.id) ⊎ In n ids → In n (add r.id ids)
    join h =
        contains→In n (add r.id ids) (contains-add r.id n ids ∙ ground (arith, In→contains n ids))

    forth :
        In n (add r.id ids) ⊎ ((x : Role) × In x rs × (x.id ≡ n))
        → In n ids ⊎ ((x : Role) × In x (r ∷ rs) × (x.id ≡ n))
    forth (inr (x, i, e)) = inr (x, inr i, e)
    forth (inl i) = elim (split i) [ inl e ↦ inr (r, inl refl, sym e) | inr j ↦ inl j ]

    over :
        In n ids ⊎ ((x : Role) × In x (r ∷ rs) × (x.id ≡ n))
        → In n (add r.id ids) ⊎ ((x : Role) × In x rs × (x.id ≡ n))
    over (inl i) = inl (join (inr i))
    over (inr (x, inl e, p)) = inl (join (inl (sym p ∙ ap (λ (y : Role). y.id) e)))
    over (inr (x, inr i, p)) = inr (x, i, p)

module _ (roles : RoleRepository) where
  -- `n` is the identifier of the Role `role_id` or of a Role above it.
  abbrev pub Grants : ℕ → ℕ → Type 0
  Grants role_id n =
      (root : Role) × (to : Role) × (roles.get role_id ≡ some root)
      × Ancestor roles to root
      × (to.id ≡ n)

  -- A Role with the identifier `n` is held through one of the bindings.
  abbrev pub Holds : List RoleBinding → ℕ → Type 0
  Holds [] n = ⊥
  Holds (b ∷ bs) n = Grants b.role_id n ⊎ Holds bs n

  module _ (max_depth : ℕ) where
    resolved-Grants :
        (role_id n : ℕ) {rs : List Role}
        → resolve_roles roles max_depth role_id ≡ ok rs
        → ((r : Role) × In r rs × (r.id ≡ n)) ↔ Grants role_id n
    resolved-Grants role_id n {rs} h =
        let (root, g, exact) = resolve_roles-exact roles max_depth role_id h in
        (
          (λ (r, i, e). (root, r, g, (exact r).0 i, e)),
          λ (root', to, g', a, e).
              let same : root' ≡ root = ground arith in
              (to, (exact to).1 (subst (Ancestor roles to) same a), e),
        )

    effective_role_ids-exact :
        (bs : List RoleBinding) (start : List ℕ) {ids : List ℕ} (n : ℕ)
        → effective_role_ids roles max_depth bs start ≡ ok ids
        → In n ids ↔ (In n start ⊎ Holds bs n)
    unfolding effective_role_ids
    effective_role_ids-exact [] start {ids} n h =
        let e : start ≡ ids = ground arith in
        (
          (λ i. inl (subst (In n) (sym e) i)),
          λ s. elim s [ inl i ↦ subst (In n) e i | inr z ↦ absurd z ],
        )
    effective_role_ids-exact (b ∷ bs) start {ids} n h =
        let (rs, e, h₁) = >>=-eq-ok (resolve_roles roles max_depth b.role_id) _ h in
        let (there, back) = effective_role_ids-exact bs (add_role_ids rs start) n h₁ in
        let (added, adds) = In-add_role_ids n rs start in
        let (granted, grants) = resolved-Grants b.role_id n e in
        (
          (λ i. elim (there i) [
            | inr held ↦ inr (inr held)
            | inl j ↦ elim (added j) [ inl s ↦ inl s | inr t ↦ inr (inl (granted t)) ]
          ]),
          λ s. back (elim s [
            | inl i ↦ inl (adds (inl i))
            | inr (inl g) ↦ inl (adds (inr (grants g)))
            | inr (inr held) ↦ inr held
          ]),
        )

    -- No rule has both of its Roles among the identifiers.
    abbrev NoConflict : List ℕ → MutuallyExclusiveRolesRule → Type 0
    NoConflict ids rule = ¬ (In rule.first_role_id ids × In rule.second_role_id ids)

    check_conflict-none :
        (ids : List ℕ) (rule : MutuallyExclusiveRolesRule)
        → check_conflict ids rule ≡ none
        → NoConflict ids rule
    check_conflict-none ids rule h (i, j) =
        ground (arith, In→contains rule.first_role_id ids i, In→contains rule.second_role_id ids j)

    -- The two Roles of a rule are not both held through the bindings.
    abbrev pub IsSeparated : List RoleBinding → MutuallyExclusiveRolesRule → Type 0
    IsSeparated bs rule = ¬ (Holds bs rule.first_role_id × Holds bs rule.second_role_id)

    find_conflict-IsSeparated :
        (rules : List MutuallyExclusiveRolesRule) (bs : List RoleBinding) (ids : List ℕ)
        → ((n : ℕ) → Holds bs n → In n ids)
        → All (λ r. check_conflict ids r ≡ none) rules
        → All (IsSeparated bs) rules
    find_conflict-IsSeparated [] bs ids held h = tt
    find_conflict-IsSeparated (rule ∷ rules) bs ids held h = (
      (λ (f, s).
          check_conflict-none ids rule h.0 (held rule.first_role_id f, held rule.second_role_id s)),
      find_conflict-IsSeparated rules bs ids held h.1,
    )

    -- Where the check of a request reports nothing, no rule has both of its Roles held through the
    -- bindings, be it by inheritance.
    pub detect_runtime-IsSeparated :
        (rules : List MutuallyExclusiveRolesRule) (bs : List RoleBinding)
        → detect_runtime roles max_depth rules bs ≡ none
        → All (IsSeparated bs) rules
    unfolding detect_runtime find_conflict
    detect_runtime-IsSeparated [] bs h = tt
    detect_runtime-IsSeparated (rule ∷ rules) bs h =
        go (effective_role_ids roles max_depth bs []) refl h
      where
        go :
            (r : HierarchyResult (List ℕ))
            → effective_role_ids roles max_depth bs [] ≡ r
            → detect_runtime roles max_depth (rule ∷ rules) bs ≡ none
            → All (IsSeparated bs) (rule ∷ rules)
        go (err e) p q = ground arith
        go (ok ids) p q =
            find_conflict-IsSeparated (rule ∷ rules) bs ids
              (λ n held. (effective_role_ids-exact bs [] n p).1 (inr held))
              ((first_violation-none (check_conflict ids) (rule ∷ rules)).0 (ground arith))

    effective_role_ids-snoc :
        (bs : List RoleBinding) (b : RoleBinding) (start : List ℕ)
        → effective_role_ids roles max_depth (bs ++ b ∷ []) start ≡ (
            effective_role_ids roles max_depth bs start >>= λ ids.
            resolve_roles roles max_depth b.role_id >>= λ rs. ok (add_role_ids rs ids))
    unfolding effective_role_ids
    effective_role_ids-snoc [] b start = refl
    effective_role_ids-snoc (c ∷ bs) b start =
        >>=-cong (resolve_roles roles max_depth c.role_id) _ _
          (λ rs. effective_role_ids-snoc bs b (add_role_ids rs start))
        ∙ sym (>>=-assoc (resolve_roles roles max_depth c.role_id) _ _)

    find_conflict-ok :
        (rules : List MutuallyExclusiveRolesRule) (candidate : ℕ) (bs : List RoleBinding)
        → ensure_assignment_allowed roles max_depth rules candidate bs ≡ ok tt
        → (ids : List ℕ) × (candidate_ids roles max_depth candidate bs ≡ ok ids)
          × (find_conflict rules ids ≡ none)
    unfolding ensure_assignment_allowed
    find_conflict-ok rules candidate bs h = go (candidate_ids roles max_depth candidate bs) refl
      where
        go :
            (r : HierarchyResult (List ℕ))
            → candidate_ids roles max_depth candidate bs ≡ r
            → (ids : List ℕ) × (candidate_ids roles max_depth candidate bs ≡ ok ids)
              × (find_conflict rules ids ≡ none)
        go (err e) p = ground arith
        go (ok ids) p = (ids, p, ground arith)

    detect_runtime-ok :
        (rules : List MutuallyExclusiveRolesRule) (bs : List RoleBinding) (ids : List ℕ)
        → effective_role_ids roles max_depth bs [] ≡ ok ids
        → find_conflict rules ids ≡ none
        → detect_runtime roles max_depth rules bs ≡ none
    unfolding detect_runtime
    detect_runtime-ok [] bs ids e h = refl
    detect_runtime-ok (rule ∷ rules) bs ids e h = rw (e, detect_runtime) h

    -- An assignment that the check allows brings no conflict: with a binding of the new Role behind the
    -- bindings that were checked, the check of requests by the same rules reports nothing.
    pub ensure-detect :
        (rules : List MutuallyExclusiveRolesRule) (bs : List RoleBinding) (b : RoleBinding)
        → ensure_assignment_allowed roles max_depth rules b.role_id bs ≡ ok tt
        → detect_runtime roles max_depth rules (bs ++ b ∷ []) ≡ none
    unfolding candidate_ids
    ensure-detect rules bs b h =
        let (ids, e, none_found) = find_conflict-ok rules b.role_id bs h in
        detect_runtime-ok rules (bs ++ b ∷ []) ids (effective_role_ids-snoc bs b [] ∙ e) none_found
