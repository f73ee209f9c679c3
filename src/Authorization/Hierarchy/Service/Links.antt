-- ===== src/Authorization/Hierarchy/Service/Links.antt =====
-- What the two methods have checked where they come to save.
use pyiamkit.Prelude.{
  ℕ, ◌≡◌, refl, sym, ap, ◌∙◌, subst, ◌⊎◌, inl, inr, ◌↔◌, ◌&&◌, Bool-cases, Option-cases, true,
  false, not, some, ok, ◌==◌, contains, In, nat_eq, contains-add, contains-remove, In-remove,
  contains→In, In→contains, >>=-eq-ok, ◌>>=◌, map_err-eq-ok, Distinct, arith,
}
use pyiamkit.Shared.{DateTime}
use pyiamkit.Authorization.Role.{Role, RoleArgs, init, rehydrate, is_active}
use pyiamkit.Authorization.Role
use pyiamkit.Authorization.Hierarchy.{RoleRepository, edge_allowed, validate_edge, ancestor_ids}
use pyiamkit.Authorization.Hierarchy.Reach.{Reaches}
use pyiamkit.Authorization.Hierarchy.Ancestors.{ancestor_ids-exact}
use pyiamkit.Authorization.Hierarchy.Changes.{
  hierarchy, closes_cycle, require_role, with_parent, without_parent,
}

-- The copy of a Role has its parents, its status and its identifier.
pub rehydrate-kept :
    (a : RoleArgs) {b : Role}
    → rehydrate a ≡ ok b
    → (b.parent_role_ids ≡ a.parent_role_ids) × (b.status ≡ a.status) × (b.id ≡ a.id)
unfolding rehydrate init
rehydrate-kept a h = ground arith

pub added-parents :
    (p m : ℕ) (at : DateTime) (r : Role) {r' : Role}
    → Role.add_parent_role p at r ≡ ok r'
    → (r'.id ≡ r.id) × (In m r'.parent_role_ids ↔ ((m ≡ p) ⊎ In m r.parent_role_ids))
unfolding Role.add_parent_role
added-parents p m at r {r'} h =
    let all = contains-add p m r.parent_role_ids in
    (
      ground arith,
      (
        λ i.
            ground
              (arith, all, In→contains m r'.parent_role_ids i, contains→In m r.parent_role_ids),
        λ i.
            contains→In m r'.parent_role_ids (ground (arith, all, In→contains m r.parent_role_ids)),
      ),
    )

pub removed-parents :
    (p m : ℕ) (at : DateTime) (r : Role) {r' : Role}
    → Role.remove_parent_role p at r ≡ ok r'
    → (r'.id ≡ r.id)
      × (In m r'.parent_role_ids → In m r.parent_role_ids)
      × (Distinct r.parent_role_ids
          → contains m r'.parent_role_ids ≡ (not (m == p) && contains m r.parent_role_ids))
unfolding Role.remove_parent_role
removed-parents p m at r {r'} h = (
  ground arith,
  λ i. ground (arith, In-remove p m r.parent_role_ids),
  λ d. ground (arith, contains-remove p m r.parent_role_ids d),
)

pub closes_cycle-step :
    (roles : RoleRepository) (max_depth : ℕ) (role parent : Role)
    → role.id == parent.id ≡ false
    → closes_cycle roles max_depth role parent
      ≡ ancestor_ids roles max_depth parent.id >>= λ ids. ok (contains role.id ids)
unfolding closes_cycle
closes_cycle-step roles max_depth role parent e = rw e refl

pub closes_cycle-false :
    (roles : RoleRepository) (max_depth : ℕ) (role parent : Role)
    → closes_cycle roles max_depth role parent ≡ ok false
    → (¬ (role.id ≡ parent.id)) × (¬ (Reaches roles role.id parent.id))
unfolding closes_cycle
closes_cycle-false roles max_depth role parent h = elim (Bool-cases (role.id == parent.id)) [
  | inl e ↦ absurd (ground arith)
  | inr e ↦
      let (ids, f, g) =
        >>=-eq-ok (ancestor_ids roles max_depth parent.id) _
          (sym (closes_cycle-step roles max_depth role parent e) ∙ h) in
      (
        λ q. ground arith,
        λ r.
            let i = (ancestor_ids-exact roles max_depth parent.id f role.id).1 r in
            ground (arith, In→contains role.id ids i),
      )
]

module _ (roles : RoleRepository) where
  require_role-ok :
      (n : ℕ) {role : Role}
      → require_role roles n ≡ ok role
      → (roles.get n ≡ some role) × (is_active role.status ≡ true) × (role.id ≡ n)
  unfolding require_role
  require_role-ok n h = elim (Option-cases (roles.get n)) [
    | inl e ↦ absurd (ground arith)
    | inr (r, e) ↦ ground (arith, roles.get_id n r e)
  ]

  -- What `add_parent_role` has checked where it comes to save.
  pub record Linked (role_id parent_id : ℕ) (role parent : Role) : Type 0 where
    pub stored : roles.get role_id ≡ some role
    pub parent_stored : roles.get parent_id ≡ some parent
    pub available : (is_active role.status ≡ true) × (is_active parent.status ≡ true)
    pub allowed : edge_allowed role.tenant_id parent.tenant_id ≡ true
    pub other : ¬ (role_id ≡ parent_id)
    pub above : ¬ (Reaches roles role_id parent_id)

  pub with_parent-Linked :
      (max_depth : ℕ) (now : DateTime) (role_id parent_id : ℕ) {changed : Role}
      → with_parent roles max_depth now role_id parent_id ≡ ok changed
      → (role : Role) × (parent : Role) × Linked role_id parent_id role parent
        × (Role.add_parent_role parent_id now role ≡ ok changed)
  unfolding with_parent validate_edge
  with_parent-Linked max_depth now role_id parent_id {changed} h =
      let (role, e₁, h₁) = >>=-eq-ok (require_role roles role_id) _ h in
      let (g₁, a₁, i₁) = require_role-ok role_id e₁ in
      let (parent, e₂, h₂) = >>=-eq-ok (require_role roles parent_id) _ h₁ in
      let (g₂, a₂, i₂) = require_role-ok parent_id e₂ in
      let (u, e₃, h₃) = >>=-eq-ok (hierarchy (validate_edge role parent)) _ h₂ in
      let (closes, e₄, h₄) =
        >>=-eq-ok (hierarchy (closes_cycle roles max_depth role parent)) _ h₃ in
      let free : closes ≡ false = ground arith in
      let (apart, fresh) =
        closes_cycle-false roles max_depth role parent (map_err-eq-ok _ _ e₄ ∙ ap ok free) in
      (
        role,
        parent,
        record {
          stored = g₁;
          parent_stored = g₂;
          available = (a₁, a₂);
          allowed = ground arith;
          other = λ q. apart (i₁ ∙ q ∙ sym i₂);
          above =
              subst (λ n. ¬ (Reaches roles n parent_id)) i₁
                (subst (λ n. ¬ (Reaches roles role.id n)) i₂ fresh);
        },
        subst (λ n. Role.add_parent_role n now role ≡ ok changed) i₂ (ground arith),
      )

  pub without_parent-ok :
      (now : DateTime) (role_id parent_id : ℕ) {changed : Role}
      → without_parent roles now role_id parent_id ≡ ok changed
      → (role : Role) × (roles.get role_id ≡ some role)
        × (is_active role.status ≡ true)
        × (role.id ≡ role_id)
        × (Role.remove_parent_role parent_id now role ≡ ok changed)
  unfolding without_parent
  without_parent-ok now role_id parent_id h =
      let (role, e, f) = >>=-eq-ok (require_role roles role_id) _ h in
      let (g, a, i) = require_role-ok role_id e in (role, g, a, i, map_err-eq-ok _ _ f)
