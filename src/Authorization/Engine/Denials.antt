-- ===== src/Authorization/Engine/Denials.antt =====
-- The denials of the engine.
use pyiamkit.Prelude.{
  ℕ, ◌≡◌, refl, sym, ap, ◌∙◌, subst, ◌⊎◌, inl, inr, false, List, [], ◌∷◌, Result, ok, err, ◌>>=◌,
  ◌>>◌, >>=-eq-err, guard, guard-eq-err, or_raise, or_raise-eq-err, map_err, map_err-eq-err,
  map_err-eq-ok, In, In-filter, filter-In, or_raise-eq-ok, arith,
}
use pyiamkit.Shared.{DateTime}
use pyiamkit.Identity.Values.{IdentityStatus}
use pyiamkit.Identity.Values
use pyiamkit.Tenancy.Values.{scope_eq}
use pyiamkit.Tenancy.Tenant.{Tenant}
use pyiamkit.Tenancy.Tenant
use pyiamkit.Tenancy.Membership.{Membership}
use pyiamkit.Authorization.RoleBinding.{RoleBinding}
use pyiamkit.Authorization.Requests.{AuthorizationRequest, GovernanceViolation}
use pyiamkit.Authorization.Decisions.{
  AuthorizationDecision, deny, deny_membership_not_found, deny_no_active_binding,
  deny_permission_not_registered, deny_scope_mismatch, deny_subject_inactive,
  deny_subject_not_found, deny_tenant_inactive, deny_tenant_not_found,
}
use pyiamkit.Authorization.Engine.Repositories.{Ports}
use pyiamkit.Authorization.Engine.Grants.{In-sort_bindings, sort_bindings-In}
use pyiamkit.Authorization.Engine.{
  Stop, denied, raised, Denial, Grant, sort_bindings, non_empty, try_bindings, scoped, evaluate,
  deny_for,
}
use pyiamkit.Authorization.Engine.Calls.{decide, deny_decision, authorize, AuditLog, AuditSink}
use pyiamkit.Authorization.Engine.Outcomes.{check_decision-eq}
use pyiamkit.Authorization.Engine.Reasons.{
  Bindings, Scoped, Explains, Governs, because, try_bindings-denied,
}
use pyiamkit.Authorization.Engine.Sink.{recorded-eq-ok}
use pyiamkit.Authorization.Engine.Violations.{Reports, explained, denied-Reports}

module _ (ports : Ports) (request : AuthorizationRequest) (now : DateTime) where
  listed :
      (bs : List RoleBinding)
      → Bindings ports request now bs
      → (b : RoleBinding) → In b (sort_bindings (scoped ports request bs))
      → Scoped ports request now bs b
  listed bs found b i =
      In-filter (λ x. scope_eq x.scope request.scope) b bs
        (In-sort_bindings b (scoped ports request bs) i)

  scoped-listed :
      (bs : List RoleBinding) (b : RoleBinding)
      → Scoped ports request now bs b
      → In b (sort_bindings (scoped ports request bs))
  scoped-listed bs b (i, e) =
      sort_bindings-In b (scoped ports request bs)
        (filter-In (λ x. scope_eq x.scope request.scope) b bs i e)

  none-listed : (cs : List RoleBinding) → non_empty cs ≡ false → (b : RoleBinding) → ¬ (In b cs)
  none-listed [] h b i = i
  none-listed (c ∷ cs) h b i = absurd (cc h)

  -- `evaluate` from the test that there are active bindings.
  choose-denied :
      (bs : List RoleBinding) (m : Membership) (d : Denial)
      → Bindings ports request now bs
      → (do
        guard (non_empty bs) (deny_for deny_no_active_binding)
        guard (non_empty (scoped ports request bs)) (deny_for deny_scope_mismatch)
        try_bindings ports request bs m (sort_bindings (scoped ports request bs)))
        ≡ err (denied d)
      → Explains ports request now d.reason ⊎ Governs ports request now d
  choose-denied [] m d found h =
      because ports request now deny_no_active_binding d (ground arith) found
  choose-denied (c ∷ cs) m d found h =
      elim (>>=-eq-err (guard (non_empty (scoped ports request (c ∷ cs))) _) _ h) [
        | inl e ↦
            let (n, x) = guard-eq-err _ _ e in
            because ports request now deny_scope_mismatch d (ground arith) (
              c ∷ cs,
              found,
              λ b (i, f).
                  none-listed (scoped ports request (c ∷ cs)) n b
                    (filter-In (λ x. scope_eq x.scope request.scope) b (c ∷ cs) i f),
            )
        | inr (_, e, h₁) ↦
            try_bindings-denied ports request now (c ∷ cs) m
              (sort_bindings (scoped ports request (c ∷ cs))) {d = d} found (listed (c ∷ cs) found)
              (λ b s. inl (scoped-listed (c ∷ cs) b s)) h₁
      ]

  -- `evaluate` from the lookup of the Membership.
  member-denied :
      (d : Denial)
      → (do
        found ← map_err raised (ports.find_active request.subject_id request.tenant_id now)
        membership ← or_raise found (deny_for deny_membership_not_found)
        permission ←
            or_raise (ports.permission request.permission) (deny_for deny_permission_not_registered)
        bindings ←
            map_err raised (ports.find_active_for_subject request.subject_id request.tenant_id now)
        guard (non_empty bindings) (deny_for deny_no_active_binding)
        guard (non_empty (scoped ports request bindings)) (deny_for deny_scope_mismatch)
        try_bindings ports request bindings membership
            (sort_bindings (scoped ports request bindings)))
        ≡ err (denied d)
      → Explains ports request now d.reason ⊎ Governs ports request now d
  member-denied d h =
      elim (>>=-eq-err (map_err raised (ports.find_active request.subject_id request.tenant_id now))
        _ h) [
          | inl e ↦ let (_, n, x) = map_err-eq-err _ _ e in absurd (cc x)
          | inr (found, e₁, h₁) ↦ elim (>>=-eq-err (or_raise found _) _ h₁) [
            | inl e ↦
                let (n, x) = or_raise-eq-err _ _ e in
                because ports request now deny_membership_not_found d (ground arith)
                  (map_err-eq-ok _ _ e₁ ∙ ap ok n)
            | inr (m, e₂, h₂) ↦
                elim (>>=-eq-err (or_raise (ports.permission request.permission) _) _ h₂) [
                  | inl e ↦
                      let (n, x) = or_raise-eq-err _ _ e in
                      because ports request now deny_permission_not_registered d (ground arith) n
                  | inr (p, e₃, h₃) ↦
                      elim (>>=-eq-err
                        (map_err raised
                          (ports.find_active_for_subject request.subject_id request.tenant_id now))
                        _ h₃) [
                          | inl e ↦ let (_, n, x) = map_err-eq-err _ _ e in absurd (cc x)
                          | inr (bs, e₄, h₄) ↦ choose-denied bs m d (map_err-eq-ok _ _ e₄) h₄
                        ]
                ]
          ]
        ]

  -- A denial by `evaluate` says what is wrong: either its reason code is true of the ports, or it
  -- carries the violation that the governance evaluators report on the active bindings.
  evaluate-denied :
      (d : Denial)
      → evaluate ports request now ≡ err (denied d)
      → Explains ports request now d.reason ⊎ Governs ports request now d
  unfolding evaluate
  evaluate-denied d h = elim (>>=-eq-err (or_raise (ports.identity request.subject_id) _) _ h) [
    | inl e ↦
        let (n, x) = or_raise-eq-err _ _ e in
        because ports request now deny_subject_not_found d (ground arith) n
    | inr (status, e₁, h₁) ↦ elim (>>=-eq-err (guard (Values.is_active status) _) _ h₁) [
      | inl e ↦
          let (n, x) = guard-eq-err _ _ e in
          because ports request now deny_subject_inactive d (ground arith)
            (status, or_raise-eq-ok _ _ e₁, n)
      | inr (_, e₂, h₂) ↦ elim (>>=-eq-err (or_raise (ports.tenant request.tenant_id) _) _ h₂) [
        | inl e ↦
            let (n, x) = or_raise-eq-err _ _ e in
            because ports request now deny_tenant_not_found d (ground arith) n
        | inr (t, e₃, h₃) ↦ elim (>>=-eq-err (guard (Tenant.is_active t.status) _) _ h₃) [
          | inl e ↦
              let (n, x) = guard-eq-err _ _ e in
              because ports request now deny_tenant_inactive d (ground arith)
                (t, or_raise-eq-ok _ _ e₃, n)
          | inr (_, e₄, h₄) ↦ member-denied d h₄
        ]
      ]
    ]
  ]

  decided-deny :
      (new_id : ℕ) {d : AuthorizationDecision}
      → decide ports new_id now request ≡ ok d
      → d.result ≡ deny
      → (x : Denial) × (evaluate ports request now ≡ err (denied x))
        × (d ≡ deny_decision new_id now request x)
  unfolding decide
  decided-deny new_id {d} h a = go (evaluate ports request now) refl
    where
      go :
          (r : Result Stop Grant)
          → evaluate ports request now ≡ r
          → (x : Denial) × (evaluate ports request now ≡ err (denied x))
            × (d ≡ deny_decision new_id now request x)
      go (ok g) e = ground arith
      go (err (denied x)) e =
          (x, e, check_decision-eq (deny_decision new_id now request x) (rw (e, decide) at h))
      go (err (raised x)) e = ground arith

  -- A decision that denies says why. Either its reason code describes what the ports
  -- hold at `now` (a missing or inactive subject or tenant, no active Membership, an unregistered
  -- permission, no active binding, none in the scope, a candidate whose Role is missing, inactive, of
  -- another tenant or in an invalid hierarchy, or candidates none of which has a path to the
  -- permission), or it carries the rule and the requirements of the violation that the governance
  -- evaluators report on the active bindings, under the reason code that `Names` gives the kind of
  -- the violation.
  pub authorize-denied :
      (sink : AuditSink) (new_id : ℕ) (log : AuditLog) {d : AuthorizationDecision}
      → (authorize ports sink new_id now request log).0 ≡ ok d
      → d.result ≡ deny
      → Explains ports request now d.reason_code
        ⊎ ((bs : List RoleBinding) × (v : GovernanceViolation) × Reports ports request now d bs v)
  unfolding authorize
  authorize-denied sink new_id log {d} h a =
      let (x, e, same) =
        decided-deny new_id (recorded-eq-ok sink (decide ports new_id now request) log h) a in
      subst
        (λ (y : AuthorizationDecision).
          Explains ports request now y.reason_code
          ⊎ ((bs : List RoleBinding) × (v : GovernanceViolation) × Reports ports request now y bs
                v))
        (sym same)
        (elim (evaluate-denied x e) [
          | inl r ↦ inl (explained ports request now new_id x r)
          | inr g ↦ inr (denied-Reports ports request now new_id x g)
        ])
