-- ===== src/Authorization/Engine/Reasons.antt =====
-- What the reason code of a denial means, and the reasons that the loop over the candidates gives.
use pyiamkit.Prelude.{
  ◌≡◌, refl, sym, subst, ◌⊎◌, inl, inr, true, false, Option, none, some, List, [], ◌∷◌, ok, err,
  >>=-eq-err, guard, guard-eq-err, or_raise, or_raise-eq-err, map_err, map_err-eq-err, In,
  Option-cases, or_raise-eq-ok, arith,
}
use pyiamkit.Shared.{DateTime}
use pyiamkit.Identity.Values.{IdentityStatus}
use pyiamkit.Identity.Values
use pyiamkit.Tenancy.Values.{scope_eq}
use pyiamkit.Tenancy.Tenant.{Tenant}
use pyiamkit.Tenancy.Tenant
use pyiamkit.Tenancy.Membership.{Membership}
use pyiamkit.Authorization.Values.{RoleHierarchyError}
use pyiamkit.Authorization.Role.{Role}
use pyiamkit.Authorization.Role
use pyiamkit.Authorization.RoleBinding.{RoleBinding}
use pyiamkit.Authorization.Hierarchy.{permission_path}
use pyiamkit.Authorization.Requests.{AuthorizationRequest, GovernanceViolation}
use pyiamkit.Authorization.Decisions.{
  AuthorizationReason, allow_inherited_role_permission_match, allow_role_permission_match,
  deny_membership_not_found, deny_no_active_binding, deny_permission_not_granted,
  deny_permission_not_registered, deny_role_hierarchy_invalid, deny_role_tenant_mismatch,
  deny_role_unavailable, deny_scope_mismatch, deny_subject_inactive, deny_subject_not_found,
  deny_tenant_inactive, deny_tenant_not_found,
}
use pyiamkit.Authorization.Engine.Repositories.{Ports}
use pyiamkit.Authorization.Engine.Grants.{IsCandidate, candidate-ok}
use pyiamkit.Authorization.Engine.{
  denied, Denial, reason_for, role_in_tenant, evaluate_governance, grant_path, candidate,
  try_bindings,
}

module _ (ports : Ports) (request : AuthorizationRequest) (now : DateTime) where
  -- The active bindings of the subject, and one of them in the request's scope.
  abbrev pub Bindings : List RoleBinding → Type 0
  Bindings bs = ports.find_active_for_subject request.subject_id request.tenant_id now ≡ ok bs

  abbrev pub Scoped : List RoleBinding → RoleBinding → Type 0
  Scoped bs b = In b bs × (scope_eq b.scope request.scope ≡ true)

  -- What is wrong with a candidate, by the reason that the loop gives.
  abbrev pub Fails : AuthorizationReason → RoleBinding → Type 0
  Fails deny_role_unavailable b =
      (ports.roles.get b.role_id ≡ none)
      ⊎ ((r : Role) × (ports.roles.get b.role_id ≡ some r) × (Role.is_active r.status ≡ false))
  Fails deny_role_tenant_mismatch b =
      (r : Role) × (ports.roles.get b.role_id ≡ some r)
      × (role_in_tenant r.tenant_id request.tenant_id ≡ false)
  Fails deny_role_hierarchy_invalid b =
      (r : Role) × (e : RoleHierarchyError) × (ports.roles.get b.role_id ≡ some r)
      × (permission_path ports.roles ports.max_depth r.id request.permission ≡ err e)
  Fails _ b = ⊥

  -- What each reason code says.
  abbrev pub Explains : AuthorizationReason → Type 0
  Explains allow_inherited_role_permission_match = ⊥
  Explains allow_role_permission_match = ⊥
  Explains deny_subject_not_found = ports.identity request.subject_id ≡ none
  Explains deny_subject_inactive =
      (s : IdentityStatus) × (ports.identity request.subject_id ≡ some s)
      × (Values.is_active s ≡ false)
  Explains deny_tenant_not_found = ports.tenant request.tenant_id ≡ none
  Explains deny_tenant_inactive =
      (t : Tenant) × (ports.tenant request.tenant_id ≡ some t) × (Tenant.is_active t.status ≡ false)
  Explains deny_membership_not_found =
      ports.find_active request.subject_id request.tenant_id now ≡ ok none
  Explains deny_permission_not_registered = ports.permission request.permission ≡ none
  Explains deny_no_active_binding = Bindings []
  Explains deny_scope_mismatch =
      (bs : List RoleBinding) × Bindings bs × ((b : RoleBinding) → ¬ (Scoped bs b))
  Explains deny_permission_not_granted =
      (bs : List RoleBinding) × Bindings bs
      × ((b : RoleBinding) → Scoped bs b → (r : Role) × IsCandidate ports request b r none)
  Explains deny_role_unavailable =
      (bs : List RoleBinding) × (b : RoleBinding) × Bindings bs
      × Scoped bs b
      × Fails deny_role_unavailable b
  Explains deny_role_tenant_mismatch =
      (bs : List RoleBinding) × (b : RoleBinding) × Bindings bs
      × Scoped bs b
      × Fails deny_role_tenant_mismatch b
  Explains deny_role_hierarchy_invalid =
      (bs : List RoleBinding) × (b : RoleBinding) × Bindings bs
      × Scoped bs b
      × Fails deny_role_hierarchy_invalid b
  Explains _ = ⊥

  -- A reason for a governance violation, which the evaluators report on the subject's bindings.
  abbrev pub Governs : Denial → Type 0
  Governs d =
      (bs : List RoleBinding) × (v : GovernanceViolation) × Bindings bs
      × (evaluate_governance ports request bs ≡ some v)
      × (d.violation ≡ some v)
      × (d.reason ≡ reason_for v.kind)

  pub because :
      (reason : AuthorizationReason) (d : Denial)
      → d.reason ≡ reason
      → Explains reason
      → Explains d.reason ⊎ Governs d
  because reason d e x = inl (subst Explains (sym e) x)

  candidate-denied :
      (b : RoleBinding) {d : Denial}
      → candidate ports request b ≡ err (denied d)
      → (((d.reason ≡ deny_role_unavailable) × Fails deny_role_unavailable b)
          ⊎ ((d.reason ≡ deny_role_tenant_mismatch) × Fails deny_role_tenant_mismatch b))
        ⊎ ((d.reason ≡ deny_role_hierarchy_invalid) × Fails deny_role_hierarchy_invalid b)
  unfolding candidate
  candidate-denied b {d} h = elim (>>=-eq-err (or_raise (ports.roles.get b.role_id) _) _ h) [
    | inl e ↦ let (n, x) = or_raise-eq-err _ _ e in inl (inl (ground arith, inl n))
    | inr (r, e₁, h₁) ↦ elim (>>=-eq-err (guard (Role.is_active r.status) _) _ h₁) [
      | inl e ↦
          let (n, x) = guard-eq-err _ _ e in
          inl (inl (ground arith, inr (r, or_raise-eq-ok _ _ e₁, n)))
      | inr (_, e₂, h₂) ↦
          elim (>>=-eq-err (guard (role_in_tenant r.tenant_id request.tenant_id) _) _ h₂) [
            | inl e ↦
                let (n, x) = guard-eq-err _ _ e in
                inl (inr (ground arith, (r, or_raise-eq-ok _ _ e₁, n)))
            | inr (_, e₃, h₃) ↦
                elim (>>=-eq-err
                  (map_err _ (permission_path ports.roles ports.max_depth r.id request.permission))
                  _ h₃) [
                    | inl e ↦
                        let (k, n, x) = map_err-eq-err _ _ e in
                        inr (ground arith, (r, k, or_raise-eq-ok _ _ e₁, n))
                    | inr (_, e₄, h₄) ↦ absurd (cc h₄)
                  ]
          ]
    ]
  ]

  grant_path-denied :
      (bs : List RoleBinding) (m : Membership) (b : RoleBinding) (r : Role) (path : List Role)
      {d : Denial}
      → Bindings bs
      → grant_path ports request bs m b r path ≡ err (denied d)
      → Governs d
  unfolding grant_path
  grant_path-denied bs m b r path found h =
      elim (Option-cases (evaluate_governance ports request bs)) [
        | inl e ↦ ground arith
        | inr (v, e) ↦ (bs, v, found, e, ground arith, ground arith)
      ]

  -- The loop, from a candidate list all of which is scoped; the candidates before it granted nothing.
  pub try_bindings-denied :
      (bs : List RoleBinding) (m : Membership) (cs : List RoleBinding) {d : Denial}
      → Bindings bs
      → ((b : RoleBinding) → In b cs → Scoped bs b)
      → ((b : RoleBinding)
          → Scoped bs b
          → In b cs ⊎ ((r : Role) × IsCandidate ports request b r none))
      → try_bindings ports request bs m cs ≡ err (denied d)
      → Explains d.reason ⊎ Governs d
  unfolding try_bindings
  try_bindings-denied bs m [] {d} found sub seen h =
      because deny_permission_not_granted d (ground arith)
        (bs, found, λ b s. elim (seen b s) [ inl z ↦ absurd z | inr t ↦ t ])
  try_bindings-denied bs m (c ∷ cs) {d} found sub seen h =
      elim (>>=-eq-err (candidate ports request c) _ h) [
        | inl e ↦ elim (candidate-denied c {d = d} e) [
          | inl (inl (p, f)) ↦ because deny_role_unavailable d p (bs, c, found, sub c (inl refl), f)
          | inl (inr (p, f)) ↦
              because deny_role_tenant_mismatch d p (bs, c, found, sub c (inl refl), f)
          | inr (p, f) ↦ because deny_role_hierarchy_invalid d p (bs, c, found, sub c (inl refl), f)
        ]
        | inr ((r, path), e, h₁) ↦
            go r path (candidate-ok ports request c r path e) h₁
              (λ s k. try_bindings-denied bs m cs {d = d} found (λ b i. sub b (inr i)) s k)
      ]
    where
      go :
          (r : Role) (path : Option (List Role))
          → IsCandidate ports request c r path
          → (elim path [
            | none ↦ try_bindings ports request bs m cs
            | some q ↦ grant_path ports request bs m c r q
          ])
            ≡ err (denied d)
          → (((b : RoleBinding)
                → Scoped bs b
                → In b cs ⊎ ((r : Role) × IsCandidate ports request b r none))
              → try_bindings ports request bs m cs ≡ err (denied d)
              → Explains d.reason ⊎ Governs d)
          → Explains d.reason ⊎ Governs d
      go r (some q) k h₁ rest = inr (grant_path-denied bs m c r q found h₁)
      go r none k h₁ rest =
          rest
            (λ b s. elim (seen b s) [
              | inr t ↦ inr t
              | inl (inr i) ↦ inl i
              | inl (inl e) ↦ inr (r, subst (λ x. IsCandidate ports request x r none) (sym e) k)
            ])
            h₁
