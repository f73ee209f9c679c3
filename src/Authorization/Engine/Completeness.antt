-- ===== src/Authorization/Engine/Completeness.antt =====
-- Which requests the engine allows.
use pyiamkit.Prelude.{
  ℕ, ◌≡◌, refl, subst, ◌⊎◌, inl, inr, true, Option, none, some, List, [], ◌∷◌, ok, In, In-filter,
  filter-In, arith,
}
use pyiamkit.Shared.{DateTime, is_utc}
use pyiamkit.Identity.Values.{IdentityStatus}
use pyiamkit.Tenancy.Values.{TenantStatus, scope_eq}
use pyiamkit.Tenancy.Tenant.{Tenant}
use pyiamkit.Tenancy.Membership.{Membership}
use pyiamkit.Authorization.Values.{Permission}
use pyiamkit.Authorization.Role.{Role}
use pyiamkit.Authorization.RoleBinding.{RoleBinding}
use pyiamkit.Authorization.Requests.{AuthorizationRequest}
use pyiamkit.Authorization.Decisions.{AuthorizationDecision, allow}
use pyiamkit.Authorization.Engine.Repositories.{Ports}
use pyiamkit.Authorization.Engine.Grants.{IsCandidate, In-sort_bindings, sort_bindings-In}
use pyiamkit.Authorization.Engine.Outcomes.{allow_decision-ok}
use pyiamkit.Authorization.Engine.Sink.{Accepts, recorded-accepted}
use pyiamkit.Authorization.Engine.Soundness.{evaluate-IsPermitted}
use pyiamkit.Authorization.Engine.{
  Grant, sort_bindings, non_empty, evaluate_governance, grant_path, candidate, try_bindings, scoped,
  evaluate,
}
use pyiamkit.Authorization.Engine.Calls.{decide, allow_decision, authorize, AuditLog, AuditSink}

module _ (ports : Ports) (request : AuthorizationRequest) where
  candidate-IsCandidate :
      (b : RoleBinding) (role : Role) (path : Option (List Role))
      → IsCandidate ports request b role path
      → candidate ports request b ≡ ok (role, path)
  unfolding candidate
  candidate-IsCandidate b role path c = rw (c.stored, c.available, c.tenant, c.searched)

  grant_path-governed :
      (bs : List RoleBinding) (m : Membership) (b : RoleBinding) (role : Role) (path : List Role)
      → evaluate_governance ports request bs ≡ none
      → (g : Grant) × (grant_path ports request bs m b role path ≡ ok g)
  unfolding grant_path
  grant_path-governed bs m b role path h =
      let g : Grant = record { membership = m; binding = b; role = role; path = path } in
      (g, rw (h, grant_path) refl)

  two_answers :
      (b : RoleBinding) (r role : Role) (path : List Role)
      → IsCandidate ports request b r none
      → IsCandidate ports request b role (some path)
      → ⊥
  two_answers b r role path k c = ground (arith, k.stored, c.stored, k.searched, c.searched)

  -- A binding of the list has a path to the permission.
  abbrev HasPath : List RoleBinding → Type 0
  HasPath cs =
      (b : RoleBinding) × (role : Role) × (path : List Role) × In b cs
      × IsCandidate ports request b role (some path)

  try_bindings_complete :
      (bs : List RoleBinding) (m : Membership) (cs : List RoleBinding)
      → evaluate_governance ports request bs ≡ none
      → ((b : RoleBinding)
          → In b cs
          → (role : Role) × (path : Option (List Role)) × IsCandidate ports request b role path)
      → HasPath cs
      → (g : Grant) × (try_bindings ports request bs m cs ≡ ok g)
  unfolding try_bindings
  try_bindings_complete bs m [] governed all (b, role, path, i, c) = absurd i
  try_bindings_complete bs m (x ∷ cs) governed all (b, role, path, i, c) =
      let (r, p, k) = all x (inl refl) in
      go r p k (candidate-IsCandidate x r p k) i
        (λ j. try_bindings_complete bs m cs governed (λ y l. all y (inr l)) (b, role, path, j, c))
    where
      go :
          (r : Role) (p : Option (List Role))
          → IsCandidate ports request x r p
          → candidate ports request x ≡ ok (r, p)
          → (b ≡ x) ⊎ In b cs
          → (In b cs → (g : Grant) × (try_bindings ports request bs m cs ≡ ok g))
          → (g : Grant) × (try_bindings ports request bs m (x ∷ cs) ≡ ok g)
      go r (some q) k e h rest = rw (e, try_bindings) (grant_path-governed bs m x r q governed)
      go r none k e (inr j) rest = rw (e, try_bindings) (rest j)
      go r none k e (inl same) rest = absurd (
          two_answers x r role path k
            (subst (λ y. IsCandidate ports request y role (some path)) same c))

  -- What makes the request allowed at `now`, on the subject's active bindings `bs`.
  pub record IsGranted (now : DateTime) (bs : List RoleBinding) : Type 0 where
    pub subject_active : ports.identity request.subject_id ≡ some IdentityStatus.active
    pub tenant_active :
        (t : Tenant) × (ports.tenant request.tenant_id ≡ some t) × (t.status ≡ TenantStatus.active)
    pub is_member :
        (m : Membership) × (ports.find_active request.subject_id request.tenant_id now
          ≡ ok (some m))
    pub registered : (p : Permission) × (ports.permission request.permission ≡ some p)
    pub bound : ports.find_active_for_subject request.subject_id request.tenant_id now ≡ ok bs
    pub in_order :
        (b : RoleBinding)
        → In b bs
        → b.scope ≡ request.scope
        → (role : Role) × (path : Option (List Role)) × IsCandidate ports request b role path
    pub has_path :
        (b : RoleBinding) × (role : Role) × (path : List Role) × In b bs
        × (b.scope ≡ request.scope)
        × IsCandidate ports request b role (some path)
    pub governed : evaluate_governance ports request bs ≡ none

  in_scope : (b : RoleBinding) → b.scope ≡ request.scope → scope_eq b.scope request.scope ≡ true
  in_scope b e = ground arith

  non_empty-In : (b : RoleBinding) (bs : List RoleBinding) → In b bs → non_empty bs ≡ true
  non_empty-In b [] i = absurd i
  non_empty-In b (x ∷ bs) i = refl

  evaluate_complete :
      (now : DateTime) (bs : List RoleBinding)
      → IsGranted now bs
      → (g : Grant) × (evaluate ports request now ≡ ok g)
  unfolding evaluate
  evaluate_complete now bs h =
      let (t, t_found, t_active) = h.tenant_active in
      let (m, m_found) = h.is_member in
      let (p, p_found) = h.registered in
      let (b, role, path, i, scope, c) = h.has_path in
      let j = filter-In (λ x. scope_eq x.scope request.scope) b bs i (in_scope b scope) in
      let (g, e) =
        try_bindings_complete bs m (sort_bindings (scoped ports request bs)) h.governed
          (λ x k.
            let (l, s) =
              In-filter (λ y. scope_eq y.scope request.scope) x bs
                (In-sort_bindings x (scoped ports request bs) k) in
            h.in_order x l (ground arith))
          (b, role, path, sort_bindings-In b (scoped ports request bs) j, c) in
      (
        g,
        rw
            (
              h.subject_active,
              t_found,
              t_active,
              m_found,
              p_found,
              h.bound,
              non_empty-In b bs i,
              non_empty-In b (scoped ports request bs) j,
            )
            e,
      )

  -- `authorize` allows what it should: where the subject and the tenant are active, the subject has an
  -- active Membership, the permission is registered, every active binding of the request's scope has an
  -- active Role of the tenant whose hierarchy can be searched, one of them leads to the permission, and
  -- no governance rule is violated, and where the audit sink, if there is one, raises nothing, the
  -- decision at a moment in UTC allows.
  pub authorize_complete :
      (now : DateTime) (new_id : ℕ) (sink : AuditSink) (log : AuditLog) (bs : List RoleBinding)
      → is_utc now ≡ true
      → IsGranted now bs
      → Accepts sink
      → (d : AuthorizationDecision) × ((authorize ports sink new_id now request log).0 ≡ ok d)
        × (d.result ≡ allow)
  unfolding authorize decide allow_decision
  authorize_complete now new_id sink log bs utc h accepts =
      let (g, e) = evaluate_complete now bs h in
      (
        allow_decision new_id now request g,
        rw
            (
              e,
              decide,
              allow_decision-ok ports request now new_id g utc
                  (evaluate-IsPermitted ports request now e),
            )
            (recorded-accepted sink (allow_decision new_id now request g) log accepts),
        refl,
      )
