-- ===== src/Operations/Mutations/Staleness.antt =====
-- Published events make the decisions stale that were cached before.
use Prim.Native.String.{String}
use pyiamkit.Prelude.{
  ℕ, ◌≡◌, refl, sym, ap, ◌∙◌, subst, Bool, true, false, ◌&&◌, ◌||◌, Option, none, some, List, [],
  ◌∷◌, ◌++◌, Result, ok, err, any, Text, ◌==◌, arith,
}
use pyiamkit.Prelude.Actions.{◌>>=◌, ◌>>◌, return, return-ok, then-ok, then-lift}
use pyiamkit.Shared.{DateTime, DomainEvent}
use pyiamkit.Authorization.Values.{AuthorizationError}
use pyiamkit.Operations.State.{StateStore, stamp_for, stamp_beq}
use pyiamkit.Operations.State.Freshness.{
  Bump, of_runtime, of_global, of_identity, of_tenant, of_tenant_authorization, of_governance,
  of_authentication, of_membership, of_subject, bump, concerns, after_bumps, stamp_beq-after_bumps,
}
use pyiamkit.Operations.Revocation.{RevocationTargetType}
use pyiamkit.Operations.Effects.{
  EventType, Effect, identity_state, tenant_state, membership_state, binding_state,
  identity_authentication, role_state, global_state, governance_state, no_effect,
  authentication_state, effect_of,
}
use pyiamkit.Operations.Metadata.{
  Readers, required_id, optional_tenant_id, required_text, required_datetime,
}
use pyiamkit.Operations.Mutations.{
  SinkState, InvalidationEvent, record_revocation, advance_role, advance_governance, apply_effect,
  apply_event, apply_all, publish,
}

-- The store after the state `st` is the one of `st` after some bumps, one of which concerns the
-- identity and the tenant if `b`.
abbrev Advanced : ℕ → ℕ → Bool → StateStore → StateStore → Type 0
Advanced i t b s s' =
    (bs : List Bump) × (s' ≡ after_bumps bs s) × (b ≡ true → any (concerns i t) bs ≡ true)

record_revocation-store :
    (e : DomainEvent EventType) (name : Option String) (type : RevocationTargetType) (target : Text)
    (tenant : Option ℕ) (expires : Option DateTime) (version : Option ℕ) (st : SinkState)
    → (record_revocation e name type target tenant expires version st).1.store ≡ st.store
unfolding record_revocation
record_revocation-store e none type target tenant expires version st = refl
record_revocation-store e (some name) type target tenant expires version st = ground arith

recorded_then :
    (e : DomainEvent EventType) (name : Option String) (type : RevocationTargetType) (target : Text)
    (tenant : Option ℕ) (expires : Option DateTime) (version : Option ℕ)
    (y : Option InvalidationEvent) (st : SinkState) {x : Option InvalidationEvent} {st' : SinkState}
    → (record_revocation e name type target tenant expires version >> return y) st ≡ (ok x, st')
    → st'.store ≡ st.store
recorded_then e name type target tenant expires version y st {x} {st'} h =
    let (u, st₁, e₁, h₁) =
      then-ok (record_revocation e name type target tenant expires version) (λ _. return y) st h in
    let (out, state) = return-ok y x st₁ st' h₁ in
    let same : (record_revocation e name type target tenant expires version st).1 ≡ st₁ =
      ap (λ (p : Result AuthorizationError (Unit {0}) × SinkState). p.1) e₁ in
    sym (ap (λ (s : SinkState). s.store) (same ∙ state))
    ∙ record_revocation-store e name type target tenant expires version st

returned :
    {y x : Option InvalidationEvent} {s t : SinkState}
    → return {E = AuthorizationError} y s ≡ (ok x, t)
    → t.store ≡ s.store
returned {y} {x} {s} {t} h = sym (ap (λ (r : SinkState). r.store) (return-ok y x s t h).1)

abbrev is_id : ℕ → Result AuthorizationError ℕ → Bool
is_id i (ok j) = i == j
is_id i (err e) = false

abbrev is_tenant_or_global : ℕ → Result AuthorizationError (Option ℕ) → Bool
is_tenant_or_global t (ok none) = true
is_tenant_or_global t (ok (some u)) = t == u
is_tenant_or_global t (err e) = false

module _ (readers : Readers) (i t : ℕ) where
  -- The event names the identity, the tenant or both, as its kind demands, or is about them all.
  abbrev pub affects_by : Effect → DomainEvent EventType → Bool
  affects_by (identity_state name) e = is_id i (required_id readers "identity_id" e)
  affects_by identity_authentication e = is_id i (required_id readers "identity_id" e)
  affects_by (authentication_state name) e = is_id i (required_id readers "identity_id" e)
  affects_by (tenant_state name) e = is_id t (required_id readers "tenant_id" e)
  affects_by (membership_state name) e =
      is_id i (required_id readers "identity_id" e) && is_id t (required_id readers "tenant_id" e)
  affects_by (binding_state name) e =
      is_id i (required_id readers "identity_id" e) && is_id t (required_id readers "tenant_id" e)
  affects_by role_state e = is_tenant_or_global t (optional_tenant_id readers e)
  affects_by governance_state e = is_tenant_or_global t (optional_tenant_id readers e)
  affects_by global_state e = true
  affects_by no_effect e = false

  abbrev pub affects : DomainEvent EventType → Bool
  affects e = affects_by (effect_of e.event_type) e

  -- One bump.
  bump-Advanced :
      (b : Bump) (a : Bool) (s s' : StateStore)
      → s' ≡ (bump b s).1
      → (a ≡ true → concerns i t b ≡ true)
      → Advanced i t a s s'
  unfolding after_bumps
  bump-Advanced b a s s' q c = (b ∷ [], q, λ h. rw (c h) refl)

  both :
      {j u : ℕ} {r r₂ : Result AuthorizationError ℕ}
      → r ≡ ok j
      → r₂ ≡ ok u
      → (is_id i r && is_id t r₂) ≡ true
      → (i == j && t == u) ≡ true
  both {j} {u} {r} {r₂} e e₂ a =
      subst (λ y. (is_id i (ok j) && is_id t y) ≡ true) e₂
        (subst (λ y. (is_id i y && is_id t r₂) ≡ true) e a)

  advance_role-Advanced :
      (e : DomainEvent EventType) (u : Option ℕ) (next : ℕ → Option InvalidationEvent)
      (st : SinkState) {x : Option InvalidationEvent} {st' : SinkState}
      → optional_tenant_id readers e ≡ ok u
      → (advance_role readers u >>= λ v. return (next v)) st ≡ (ok x, st')
      → Advanced i t (is_tenant_or_global t (optional_tenant_id readers e)) st.store st'.store
  advance_role-Advanced e none next st {x} {st'} r h =
      bump-Advanced of_global _ st.store st'.store (returned h) (λ a. refl)
  advance_role-Advanced e (some u) next st {x} {st'} r h =
      bump-Advanced (of_tenant_authorization u) _ st.store st'.store (returned h)
        (λ a. subst (λ y. is_tenant_or_global t y ≡ true) r a)

  advance_governance-Advanced :
      (e : DomainEvent EventType) (u : Option ℕ) (next : ℕ → Option InvalidationEvent)
      (st : SinkState) {x : Option InvalidationEvent} {st' : SinkState}
      → optional_tenant_id readers e ≡ ok u
      → (advance_governance readers u >>= λ v. return (next v)) st ≡ (ok x, st')
      → Advanced i t (is_tenant_or_global t (optional_tenant_id readers e)) st.store st'.store
  advance_governance-Advanced e none next st {x} {st'} r h =
      bump-Advanced of_runtime _ st.store st'.store (returned h) (λ a. refl)
  advance_governance-Advanced e (some u) next st {x} {st'} r h =
      bump-Advanced (of_governance u) _ st.store st'.store (returned h)
        (λ a. subst (λ y. is_tenant_or_global t y ≡ true) r a)

  effect-Advanced :
      (f : Effect) (e : DomainEvent EventType) (st : SinkState) {x : Option InvalidationEvent}
      {st' : SinkState}
      → apply_effect readers f e st ≡ (ok x, st')
      → Advanced i t (affects_by f e) st.store st'.store
  unfolding apply_effect after_bumps
  effect-Advanced (identity_state name) e st {x} {st'} h =
      let (j, r, h₁) = then-lift (required_id readers "identity_id" e) _ st h in
      bump-Advanced (of_identity j) _ st.store st'.store (recorded_then e name _ _ _ _ _ _ _ h₁)
        (λ a. subst (λ y. is_id i y ≡ true) r a)
  effect-Advanced identity_authentication e st {x} {st'} h =
      let (j, r, h₁) = then-lift (required_id readers "identity_id" e) _ st h in
      bump-Advanced (of_authentication j) _ st.store st'.store (returned h₁)
        (λ a. subst (λ y. is_id i y ≡ true) r a)
  effect-Advanced (tenant_state name) e st {x} {st'} h =
      let (u, r, h₁) = then-lift (required_id readers "tenant_id" e) _ st h in
      bump-Advanced (of_tenant u) _ st.store st'.store (recorded_then e name _ _ _ _ _ _ _ h₁)
        (λ a. subst (λ y. is_id t y ≡ true) r a)
  effect-Advanced (membership_state name) e st {x} {st'} h =
      let (j, r, h₁) = then-lift (required_id readers "identity_id" e) _ st h in
      let (u, r₂, h₂) = then-lift (required_id readers "tenant_id" e) _ st h₁ in
      let (target, r₃, h₃) = then-lift (required_text readers name "membership_id" e) _ _ h₂ in
      bump-Advanced (of_membership j u) _ st.store st'.store (recorded_then e name _ _ _ _ _ _ _ h₃)
        (λ a. both r r₂ a)
  effect-Advanced (binding_state name) e st {x} {st'} h =
      let (j, r, h₁) = then-lift (required_id readers "identity_id" e) _ st h in
      let (u, r₂, h₂) = then-lift (required_id readers "tenant_id" e) _ st h₁ in
      let (target, r₃, h₃) = then-lift (required_text readers name "binding_id" e) _ _ h₂ in
      bump-Advanced (of_subject j u) _ st.store st'.store (recorded_then e name _ _ _ _ _ _ _ h₃)
        (λ a. both r r₂ a)
  effect-Advanced role_state e st {x} {st'} h =
      let (u, r, h₁) = then-lift (optional_tenant_id readers e) _ st h in
      advance_role-Advanced e u _ st r h₁
  effect-Advanced global_state e st {x} {st'} h =
      bump-Advanced of_global true st.store st'.store (returned h) (λ a. refl)
  effect-Advanced governance_state e st {x} {st'} h =
      let (u, r, h₁) = then-lift (optional_tenant_id readers e) _ st h in
      advance_governance-Advanced e u _ st r h₁
  effect-Advanced (authentication_state name) e st {x} {st'} h =
      let (j, r, h₁) = then-lift (required_id readers "identity_id" e) _ st h in
      let (target, r₂, h₂) = then-lift (required_text readers name "session_id" e) _ _ h₁ in
      let (expires, r₃, h₃) = then-lift (required_datetime readers name "expires_at" e) _ _ h₂ in
      bump-Advanced (of_authentication j) _ st.store st'.store
        (recorded_then e name _ _ _ _ _ _ _ h₃) (λ a. subst (λ y. is_id i y ≡ true) r a)
  effect-Advanced no_effect e st {x} {st'} h = ([], returned h, λ a. absurd (cc a))

  after_bumps-append :
      (bs cs : List Bump) (s : StateStore)
      → after_bumps (bs ++ cs) s ≡ after_bumps cs (after_bumps bs s)
  unfolding after_bumps
  after_bumps-append [] cs s = refl
  after_bumps-append (b ∷ bs) cs s = after_bumps-append bs cs (bump b s).1

  any_append : (p : Bump → Bool) (bs cs : List Bump) → any p (bs ++ cs) ≡ (any p bs || any p cs)
  any_append p [] cs = refl
  any_append p (b ∷ bs) cs = ground (arith, any_append p bs cs)

  Advanced-trans :
      (a b : Bool) (r s u : StateStore)
      → Advanced i t a r s
      → Advanced i t b s u
      → Advanced i t (a || b) r u
  Advanced-trans a b r s u (bs, q, f) (cs, p, g) = (
    bs ++ cs,
    p ∙ ap (after_bumps cs) q ∙ sym (after_bumps-append bs cs r),
    λ h. ground (arith, any_append (concerns i t) bs cs),
  )

  all-Advanced :
      (es : List (DomainEvent EventType)) (st : SinkState) {xs : List InvalidationEvent}
      {st' : SinkState}
      → apply_all readers es st ≡ (ok xs, st')
      → Advanced i t (any affects es) st.store st'.store
  unfolding apply_all apply_event after_bumps
  all-Advanced [] st {xs} {st'} h =
      ([], sym (ap (λ (r : SinkState). r.store) (return-ok [] xs st st' h).1), λ a. absurd (cc a))
  all-Advanced (e ∷ es) st {xs} {st'} h =
      let (x, st₁, e₁, h₁) = then-ok (apply_event readers e) _ st h in
      let (ys, st₂, e₂, h₂) = then-ok (apply_all readers es) _ st₁ h₁ in
      let first = effect-Advanced (effect_of e.event_type) e st e₁ in
      let rest = all-Advanced es st₁ e₂ in
      let state = ap (λ (r : SinkState). r.store) (return-ok _ xs st₂ st' h₂).1 in
      subst (Advanced i t (any affects (e ∷ es)) st.store) state
        (Advanced-trans (affects e) (any affects es) st.store st₁.store st₂.store first rest)

  publish-Advanced :
      (es : List (DomainEvent EventType)) (st : SinkState) {st' : SinkState}
      → publish readers es st ≡ (ok tt, st')
      → Advanced i t (any affects es) st.store st'.store
  unfolding publish
  publish-Advanced es st {st'} h =
      let (xs, st₁, e₁, h₁) = then-ok (apply_all readers es) _ st h in
      let store = ap (λ (p : Result AuthorizationError (Unit {0}) × SinkState). p.1.store) h₁ in
      subst (Advanced i t (any affects es) st.store) store (all-Advanced es st e₁)

  -- When the sink has published, without an exception, events of which one names the identity, the
  -- tenant or both as its kind demands, or is about them all, the stamp that the store gives for
  -- that identity and tenant is not the one that it gave before.
  pub publish-stamp :
      (es : List (DomainEvent EventType)) (st st' : SinkState)
      → publish readers es st ≡ (ok tt, st')
      → any affects es ≡ true
      → stamp_beq (stamp_for i t st.store) (stamp_for i t st'.store) ≡ false
  publish-stamp es st st' h a =
      let (bs, q, f) = publish-Advanced es st h in
      subst (λ s. stamp_beq (stamp_for i t st.store) (stamp_for i t s) ≡ false) (sym q)
        (rw (stamp_beq-after_bumps bs i t st.store, f a) refl)
