-- ===== src/Authorization/Hierarchy/Service/Returning.antt =====
-- When `add_parent_role` returns, on the in-memory repository.
use pyiamkit.Prelude.{
  ℕ, suc, ◌≡◌, refl, ◌∙◌, inl, inr, true, false, none, some, List, [], Result-cases, ok, ◌==◌,
  contains, nat_eq, contains→In, Bool-cases, lookup, arith,
}
use pyiamkit.Shared.{DateTime, DomainEvent, is_utc}
use pyiamkit.Authorization.Values.{AuthorizationCatalogEventType}
use pyiamkit.Authorization.Role.{Role, init, rehydrate, is_active}
use pyiamkit.Authorization.Role
use pyiamkit.Authorization.Hierarchy.{RoleRepository, edge_allowed, validate_edge}
use pyiamkit.Authorization.Hierarchy.Reach.{Reaches, IsAcyclic}
use pyiamkit.Authorization.Hierarchy.Ancestors.{ancestor_ids-exact}
use pyiamkit.Authorization.Hierarchy.Clear.{IsClear, ancestor_ids-returns}
use pyiamkit.Authorization.Hierarchy.Changes.{require_role, closes_cycle, with_parent}
use pyiamkit.Authorization.Hierarchy.Service.{State, EventSink, add_parent_role}
use pyiamkit.Authorization.Hierarchy.Service.Links.{closes_cycle-step}
use pyiamkit.Authorization.Hierarchy.Service.Saving.{save_role-returns}
use pyiamkit.Authorization.Memory.Roles.{Store, repository, in_memory, stored_copy}
use pyiamkit.Authorization.Memory.Roles

added-copy :
    (p : ℕ) (now : DateTime) (r r' : Role)
    → is_utc now ≡ true
    → rehydrate r.args ≡ ok r
    → Role.add_parent_role p now r ≡ ok r'
    → rehydrate r'.args ≡ ok (record r' { pending_events = [] })
unfolding Role.add_parent_role rehydrate init
added-copy p now r r' u c h = ground arith

-- The method of an active Role returns for another parent at a moment in UTC, and the changed Role can
-- be copied if the Role can.
added-returns :
    (p : ℕ) (now : DateTime) (r : Role)
    → is_active r.status ≡ true
    → is_utc now ≡ true
    → p == r.id ≡ false
    → rehydrate r.args ≡ ok r
    → (r' : Role) × (Role.add_parent_role p now r ≡ ok r')
      × (rehydrate r'.args ≡ ok (record r' { pending_events = [] }))
unfolding Role.add_parent_role
added-returns p now r a u o c = elim (Result-cases (Role.add_parent_role p now r)) [
  | inl (r', h) ↦ (r', h, added-copy p now r r' u c h)
  | inr (e, h) ↦ absurd (ground arith)
]

module _ (roles : RoleRepository) where
  require_role-returns :
      (n : ℕ) (r : Role)
      → roles.get n ≡ some r
      → is_active r.status ≡ true
      → require_role roles n ≡ ok r
  unfolding require_role
  require_role-returns n r g a = ground arith

  closes_cycle-returns :
      (max_depth : ℕ) (role parent : Role)
      → IsAcyclic roles
      → roles.get parent.id ≡ some parent
      → is_active parent.status ≡ true
      → IsClear roles (suc max_depth) parent
      → ¬ (role.id ≡ parent.id)
      → ¬ (Reaches roles role.id parent.id)
      → closes_cycle roles max_depth role parent ≡ ok false
  closes_cycle-returns max_depth role parent acyclic g a clear apart fresh =
      let (ids, e) = ancestor_ids-returns roles max_depth parent.id parent acyclic g a clear in
      let outside : contains role.id ids ≡ false = elim (Bool-cases (contains role.id ids)) [
        | inl i ↦ absurd (
            fresh (
              (ancestor_ids-exact roles max_depth parent.id e role.id).0
                (contains→In role.id ids i)))
        | inr n ↦ n
      ] in
      let other : role.id == parent.id ≡ false = ground arith in
      closes_cycle-step roles max_depth role parent other ∙ rw (e, outside) refl

  with_parent-returns :
      (max_depth : ℕ) (now : DateTime) (role parent changed : Role)
      → roles.get role.id ≡ some role
      → roles.get parent.id ≡ some parent
      → is_active role.status ≡ true
      → is_active parent.status ≡ true
      → edge_allowed role.tenant_id parent.tenant_id ≡ true
      → closes_cycle roles max_depth role parent ≡ ok false
      → Role.add_parent_role parent.id now role ≡ ok changed
      → with_parent roles max_depth now role.id parent.id ≡ ok changed
  unfolding with_parent validate_edge
  with_parent-returns max_depth now role parent changed g₁ g₂ a₁ a₂ e c h =
      rw
        (
          require_role-returns role.id role g₁ a₁,
          require_role-returns parent.id parent g₂ a₂,
          e,
          c,
          h,
        )
        refl

-- On the in-memory repository `add_parent_role` returns where the two Roles are stored and active, the
-- tenants allow the edge, the parent is neither the Role nor below it, and the clock is in UTC; and
-- where no Role is above itself, what stands above the parent is stored and active, the tenants allow
-- every edge there, and no chain from the parent has more than `max_depth + 1` Roles; and where the
-- event sink raises nothing.
pub add_parent_role-returns :
    (sink : EventSink) (max_depth : ℕ) (now : DateTime) (st : State Store) (role parent : Role)
    → lookup role.id st.store.items ≡ some role
    → lookup parent.id st.store.items ≡ some parent
    → is_active role.status ≡ true
    → is_active parent.status ≡ true
    → edge_allowed role.tenant_id parent.tenant_id ≡ true
    → ¬ (role.id ≡ parent.id)
    → ¬ (Reaches (repository st.store) role.id parent.id)
    → is_utc now ≡ true
    → IsAcyclic (repository st.store)
    → IsClear (repository st.store) (suc max_depth) parent
    → ((taken given : List (DomainEvent AuthorizationCatalogEventType)) → sink taken given ≡ none)
    → (b : Role) × (st' : State Store) × (add_parent_role in_memory sink max_depth now role.id
          parent.id st
        ≡ (ok b, st'))
unfolding add_parent_role
add_parent_role-returns sink max_depth now st role parent g₁ g₂ a₁ a₂ e apart fresh u acyclic clear
      accepts =
    let other : parent.id == role.id ≡ false = ground arith in
    let (changed, h, copied) =
      added-returns parent.id now role a₁ u other (stored_copy role.id st.store role g₁) in
    let closes =
      closes_cycle-returns (repository st.store) max_depth role parent acyclic g₂ a₂ clear apart
        fresh in
    let made =
      with_parent-returns (repository st.store) max_depth now role parent changed g₁ g₂ a₁ a₂ e
        closes h in
    let bare : Role = record changed { pending_events = [] } in
    let (s', saved) = Roles.save_role-returns bare st.store bare copied in
    let (b, st', k) = save_role-returns in_memory sink changed st s' saved accepts in
    (b, st', rw made k)
