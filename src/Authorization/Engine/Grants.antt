-- ===== src/Authorization/Engine/Grants.antt =====
-- What the loop over the candidates has checked of the one that it grants.
use pyiamkit.Prelude.{
  ◌≡◌, ap, ◌⊎◌, inl, inr, true, Option, none, some, List, [], ◌∷◌, ok, >>=-eq-ok, In, Option-cases,
  arith,
}
use pyiamkit.Tenancy.Membership.{Membership}
use pyiamkit.Authorization.Role.{Role}
use pyiamkit.Authorization.Role
use pyiamkit.Authorization.RoleBinding.{RoleBinding}
use pyiamkit.Authorization.Hierarchy.{permission_path}
use pyiamkit.Authorization.Requests.{AuthorizationRequest}
use pyiamkit.Authorization.Engine.Repositories.{Ports}
use pyiamkit.Authorization.Engine.{
  Grant, insert_binding, sort_bindings, role_in_tenant, evaluate_governance, grant_path, candidate,
  try_bindings,
}

insert-In :
    (a b : RoleBinding) (bs : List RoleBinding) → (a ≡ b) ⊎ In a bs → In a (insert_binding b bs)
insert-In a b [] h = h
insert-In a b (c ∷ bs) h = ground (arith, insert-In a b bs)

In-insert :
    (a b : RoleBinding) (bs : List RoleBinding) → In a (insert_binding b bs) → (a ≡ b) ⊎ In a bs
In-insert a b [] h = h
In-insert a b (c ∷ bs) h = ground (arith, In-insert a b bs)

pub In-sort_bindings : (a : RoleBinding) (bs : List RoleBinding) → In a (sort_bindings bs) → In a bs
unfolding sort_bindings
In-sort_bindings a [] h = h
In-sort_bindings a (b ∷ bs) h =
    ground (arith, In-insert a b (sort_bindings bs) h, In-sort_bindings a bs)

pub sort_bindings-In : (a : RoleBinding) (bs : List RoleBinding) → In a bs → In a (sort_bindings bs)
unfolding sort_bindings
sort_bindings-In a [] h = h
sort_bindings-In a (b ∷ bs) (inl e) = insert-In a b (sort_bindings bs) (inl e)
sort_bindings-In a (b ∷ bs) (inr i) =
    insert-In a b (sort_bindings bs) (inr (sort_bindings-In a bs i))

module _ (ports : Ports) where
  -- A candidate whose Role has been looked up, and the answer of the search.
  pub record IsCandidate (request : AuthorizationRequest) (b : RoleBinding) (role : Role)
      (path : Option (List Role)) : Type 0 where
    pub stored : ports.roles.get b.role_id ≡ some role
    pub available : Role.is_active role.status ≡ true
    pub tenant : role_in_tenant role.tenant_id request.tenant_id ≡ true
    pub searched : permission_path ports.roles ports.max_depth role.id request.permission ≡ ok path

  pub candidate-ok :
      (request : AuthorizationRequest) (b : RoleBinding) (role : Role) (path : Option (List Role))
      → candidate ports request b ≡ ok (role, path)
      → IsCandidate request b role path
  unfolding candidate
  candidate-ok request b role path h = elim (Option-cases (ports.roles.get b.role_id)) [
    | inl e ↦ ground arith
    | inr (r, e) ↦ ground arith
  ]

  -- What the loop has checked of the grant that it returns.
  pub record IsChosen (request : AuthorizationRequest) (bindings : List RoleBinding) (g : Grant)
      : Type 0 where
    pub is_candidate : IsCandidate request g.binding g.role (some g.path)
    pub governed : evaluate_governance ports request bindings ≡ none

  grant_path-ok :
      (request : AuthorizationRequest) (bindings : List RoleBinding) (m : Membership)
      (b : RoleBinding) (role : Role) (path : List Role) {g : Grant}
      → grant_path ports request bindings m b role path ≡ ok g
      → (g ≡ record { membership = m; binding = b; role = role; path = path })
        × (evaluate_governance ports request bindings ≡ none)
  unfolding grant_path
  grant_path-ok request bindings m b role path h = ground arith

  pub try_bindings-ok :
      (request : AuthorizationRequest) (bindings : List RoleBinding) (m : Membership)
      (bs : List RoleBinding) {g : Grant}
      → try_bindings ports request bindings m bs ≡ ok g
      → In g.binding bs × (g.membership ≡ m) × IsChosen request bindings g
  unfolding try_bindings
  try_bindings-ok request bindings m [] h = ground arith
  try_bindings-ok request bindings m (b ∷ bs) {g} h =
      let ((role, path), e, h₁) = >>=-eq-ok (candidate ports request b) _ h in
      go role path (candidate-ok request b role path e) h₁
        (λ k. try_bindings-ok request bindings m bs {g = g} k)
    where
      go :
          (role : Role) (path : Option (List Role))
          → IsCandidate request b role path
          → (elim path [
            | none ↦ try_bindings ports request bindings m bs
            | some found ↦ grant_path ports request bindings m b role found
          ])
            ≡ ok g
          → (try_bindings ports request bindings m bs ≡ ok g
              → In g.binding bs × (g.membership ≡ m) × IsChosen request bindings g)
          → In g.binding (b ∷ bs) × (g.membership ≡ m) × IsChosen request bindings g
      go role none c k rest = let (i, e, chosen) = rest k in (inr i, e, chosen)
      go role (some found) c k rest =
          let (e, governed) = grant_path-ok request bindings m b role found k in
          (
            inl (ap (λ (x : Grant). x.binding) e),
            ap (λ (x : Grant). x.membership) e,
            record { is_candidate = rw e c; governed = governed },
          )
