-- ===== src/Authorization/Memory/Enforced.antt =====
-- From the registration of a constraint to the engine's decisions, over the in-memory repositories.
use pyiamkit.Prelude.{
  ℕ, ◌≡◌, sym, ap, ◌∙◌, subst, inl, inr, true, false, Option, List, [], ◌∷◌, ok, Result-cases,
  >>=-eq-ok, ok_inj, ◌==◌, values, filter-In, In, All, All-In, In-insert_new, In-insert_other, Text,
  Unicode, arith,
}
use pyiamkit.Shared.{DateTime}
use pyiamkit.Shared.Stores.Laws.{In-values}
use pyiamkit.Authorization.Values.{PermissionCode, permission_beq_iff, parse}
use pyiamkit.Authorization.Hierarchy.{RoleRepository}
use pyiamkit.Authorization.Requests.{AuthorizationRequest}
use pyiamkit.Authorization.Decisions.{AuthorizationDecision, allow}
use pyiamkit.Authorization.Governance.{
  AuthorizationConstraint, MutuallyExclusiveRolesRule, DistinctActorSodRule,
}
use pyiamkit.Authorization.Governance.Constraints.{IsSatisfied}
use pyiamkit.Authorization.Governance.Registration.{
  State, Limit, make_distinct_actor, require_permission, require_role, register_constraint,
  register_distinct_actor, register_exclusive,
}
use pyiamkit.Authorization.Governance.Registered.{register_constraint-saved}
use pyiamkit.Authorization.Governance.Exclusion.{Registration, register, run}
use pyiamkit.Authorization.Memory.Rules.{Catalog, Constraints, applies_in, is_for, list_for}
use pyiamkit.Authorization.Memory.Filled.{Stores, in_memory_ports}
use pyiamkit.Authorization.Engine.Calls.{AuditLog, AuditSink, authorize}
use pyiamkit.Authorization.Engine.Outcomes.{authorize_sound}

list_for-In :
    (code : PermissionCode) (tenant : ℕ) (items : Constraints) (rule : AuthorizationConstraint)
    → In rule (values items)
    → is_for code tenant rule ≡ true
    → In rule (list_for code tenant items)
unfolding list_for
list_for-In code tenant items rule i c = filter-In (is_for code tenant) rule (values items) i c

module _ (u : Unicode) (permissions : Catalog) (roles : RoleRepository) where
  register_distinct_actor-constraints :
      (permission name attribute : Text) (tenant : Option ℕ) (new_id : ℕ) (now : DateTime)
      (st : State) {out : DistinctActorSodRule × State}
      → register_distinct_actor u permissions permission name attribute tenant new_id now st
        ≡ ok out
      → out.1.constraints ≡ st.constraints
  unfolding register_distinct_actor
  register_distinct_actor-constraints permission name attribute tenant new_id now st h =
      let (code, _, h₁) = >>=-eq-ok (require_permission u permissions permission) _ h in
      let (made, e, h₂) = >>=-eq-ok (make_distinct_actor _) _ h₁ in
      sym (ap (λ (x : DistinctActorSodRule × State). x.1.constraints) (ok_inj h₂))

  register_exclusive-constraints :
      (name : Text) (first second : ℕ) (tenant : Option ℕ) (new_id : ℕ) (now : DateTime)
      (st : State) {out : MutuallyExclusiveRolesRule × State}
      → register_exclusive roles name first second tenant new_id now st ≡ ok out
      → out.1.constraints ≡ st.constraints
  unfolding register_exclusive
  register_exclusive-constraints name first second tenant new_id now st h =
      let (f, _, h₁) = >>=-eq-ok (require_role roles first) _ h in
      let (s, _, h₂) = >>=-eq-ok (require_role roles second) _ h₁ in ground arith

  constraint-kept :
      (r : Registration) (n k : ℕ) (now : DateTime) (st : State) (rule : AuthorizationConstraint)
      → k == n ≡ false
      → In (k, rule) st.constraints
      → In (k, rule) (register u permissions roles r n now st).constraints
  constraint-kept (Registration.constraint l p t) n k now st rule o i =
      elim (Result-cases (register_constraint u permissions l p t n now st)) [
        | inl ((made, st'), e) ↦
            let (_, _, _, saved) = register_constraint-saved u permissions l p t n now st e in
            rw e (
              subst (λ x. In (k, rule) x) (sym saved)
                (In-insert_other k n rule made st.constraints o i))
        | inr (_, e) ↦ rw e i
      ]
  constraint-kept (Registration.distinct_actor p name a t) n k now st rule o i =
      elim (Result-cases (register_distinct_actor u permissions p name a t n now st)) [
        | inl (out, e) ↦
            let same = register_distinct_actor-constraints p name a t n now st e in
            rw e (subst (λ x. In (k, rule) x) (sym same) i)
        | inr (_, e) ↦ rw e i
      ]
  constraint-kept (Registration.exclusive name f s t) n k now st rule o i =
      elim (Result-cases (register_exclusive roles name f s t n now st)) [
        | inl (out, e) ↦
            let same = register_exclusive-constraints name f s t n now st e in
            rw e (subst (λ x. In (k, rule) x) (sym same) i)
        | inr (_, e) ↦ rw e i
      ]

  run-constraint :
      (rs : List (ℕ × DateTime × Registration)) (k : ℕ) (st : State)
      (rule : AuthorizationConstraint)
      → All (λ r. k == r.0 ≡ false) rs
      → In (k, rule) st.constraints
      → In (k, rule) (run u permissions roles rs st).constraints
  unfolding run
  run-constraint [] k st rule o i = i
  run-constraint ((n, now, r) ∷ rs) k st rule o i =
      run-constraint rs k (register u permissions roles r n now st) rule o.1
        (constraint-kept r n k now st rule o.0 i)

  -- A constraint, once registered, is enforced: whatever is registered later under other identifiers,
  -- where the engine over the in-memory repositories allows a request for the constraint's permission,
  -- in a tenant in which the constraint applies, the request satisfies the constraint.
  pub registered-IsSatisfied :
      (limit : Limit) (permission : Text) (tenant : Option ℕ) (new_id : ℕ) (registered : DateTime)
      (st : State) {rule : AuthorizationConstraint} {st' : State}
      → register_constraint u permissions limit permission tenant new_id registered st
        ≡ ok (rule, st')
      → (later : List (ℕ × DateTime × Registration)) → All (λ r. new_id == r.0 ≡ false) later
      → (s : Stores) (max_depth : ℕ) (request : AuthorizationRequest) (now : DateTime)
        (decision_id : ℕ) (sink : AuditSink) (log : AuditLog) {d : AuthorizationDecision}
      → parse u permission ≡ ok request.permission
      → applies_in request.tenant_id tenant ≡ true
      → (authorize
          (in_memory_ports s max_depth (run u permissions roles later st'))
          sink
          decision_id
          now
          request
          log).0
        ≡ ok d
      → d.result ≡ allow
      → IsSatisfied request rule
  registered-IsSatisfied limit permission tenant new_id registered st {rule} {st'} h later o s
        max_depth request now decision_id sink log p a e allows =
      let rules = run u permissions roles later st' in
      let (wanted, q, listing, saved) =
        register_constraint-saved u permissions limit permission tenant new_id registered st h in
      let same : wanted ≡ request.permission = ok_inj (sym q ∙ p) in
      let here : In (new_id, rule) st'.constraints =
        subst (λ x. In (new_id, rule) x) (sym saved) (In-insert_new new_id rule st.constraints) in
      let place =
        In-values new_id rule rules.constraints (run-constraint later new_id st' rule o here) in
      let chosen : is_for request.permission request.tenant_id rule ≡ true =
        listing request.permission request.tenant_id
        ∙ ground (arith, (permission_beq_iff wanted request.permission).1 same) in
      let (g, permitted, _) =
        authorize_sound (in_memory_ports s max_depth rules) request now decision_id sink log e
          allows in
      let (_, _, _, governed) = permitted.listed in
      All-In (IsSatisfied request) rule
        (list_for request.permission request.tenant_id rules.constraints) governed.constraints
        (list_for-In request.permission request.tenant_id rules.constraints rule place chosen)
