-- ===== src/Operations/Runtime/Justified.antt =====
-- Why the runtime allows.
use pyiamkit.Prelude.{
  ℕ, zero, suc, ◌+◌, ◌≡◌, ◌≤◌, ◌<◌, refl, ap, subst, ◌∙◌, ◌⊎◌, Bool, true, false, Option, none,
  some, Result, ok, err, map_err-eq-ok, Text, Bool-cases, Option-cases, In, inl, inr, arith,
}
use pyiamkit.Shared.{DateTime}
use pyiamkit.Authorization.Values.{AuthorizationError}
use pyiamkit.Authorization.Requests.{AuthorizationRequest}
use pyiamkit.Authorization.Decisions.{AuthorizationDecision, allowed, check_decision}
use pyiamkit.Authorization.Engine.Calls.{decide, record_decision}
use pyiamkit.Authorization.Engine.Sink.{recorded-eq-ok}
use pyiamkit.Authorization.Engine.Calls
use pyiamkit.Operations.State.{SecurityStateStamp, stamp_beq}
use pyiamkit.Operations.Cache.{
  AuthorizationCacheEntry, Entries, find_entry, is_valid_for, valid_for, to_decision,
}
use pyiamkit.Operations.Cache
use pyiamkit.Operations.Revocation.{RevocationMarker}
use pyiamkit.Operations.Checks.{
  RuntimeError, registry_unavailable, runtime_unavailable, other, Reads, Settings, RuntimeState,
  cache_allow, revocation_denial, request_revocation,
}
use pyiamkit.Operations.Runtime.Shrinking.{Among, find_entry-In, attempt-Shrinks}
use pyiamkit.Operations.Runtime.{
  Verdict, again, decided, record_made, dropped, deny_revoked, cached, return_decision, finish,
  settle, behind_engine, ask_engine, answer_hit, hit, looked_up, begin, attempt, conclude, loop,
  authorize, revocation_after, revocation_hit,
}

denial-denies :
    (n : ℕ) (request : AuthorizationRequest) (m : RevocationMarker) (at : DateTime)
    {d : AuthorizationDecision}
    → revocation_denial n request m at ≡ ok d
    → allowed d ≡ false
unfolding revocation_denial check_decision
denial-denies n request m at {d} h = ground arith

module _ (settings : Settings) (key : Text) (request : AuthorizationRequest) where
  -- A reading of the registry failed.
  pub data IsUnavailable (r : Reads) (d : AuthorizationDecision) : Type 0 where
    at_first :
        request_revocation r.registry_before request r.stamp_before r.now ≡ err registry_unavailable
        → IsUnavailable r d
    at_hit :
        (e : AuthorizationCacheEntry)
        → revocation_hit settings key request r e ≡ err registry_unavailable
        → IsUnavailable r d
    at_last :
        revocation_after settings key request r d ≡ err registry_unavailable → IsUnavailable r d

  -- What stands behind a decision that allows, where the cache held `es` at first.
  pub data IsJustified (r : Reads) (es : Entries) (d : AuthorizationDecision) : Type 0 where
    by_cache :
        (e : AuthorizationCacheEntry)
        → In (key, e) es
        → valid_for r.stamp_before r.now e ≡ true
        → stamp_beq r.stamp_hit r.stamp_before ≡ true
        → revocation_hit settings key request r e ≡ ok none
        → to_decision r.new_id request r.now e.decision ≡ ok d
        → IsJustified r es d
    by_engine :
        decide r.ports r.engine_id r.engine_now request ≡ ok d
        → stamp_beq r.stamp_after r.stamp_before ≡ true
        → (revocation_after settings key request r d ≡ ok none) ⊎ IsUnavailable r d
        → IsJustified r es d

  abbrev Allows : Verdict × RuntimeState → AuthorizationDecision → Type 0
  Allows s d = (s.0 ≡ decided (ok d)) × (allowed d ≡ true)

  decided_inj : {r r' : Result RuntimeError AuthorizationDecision} → decided r ≡ decided r' → r ≡ r'
  decided_inj h = ground arith

  record_made-Allows :
      (made : Result AuthorizationError AuthorizationDecision) (st : RuntimeState)
      (d : AuthorizationDecision)
      → Allows (record_made settings key request made st) d
      → made ≡ ok d
  record_made-Allows (ok x) st d (h, a) =
      recorded-eq-ok settings.audit (ok x) st.log
        (map_err-eq-ok other (record_decision settings.audit x st.log).0 (decided_inj h))
  record_made-Allows (err e) st d (h, a) = absurd (ground arith)

  deny_revoked-Allows :
      (r : Reads) (m : RevocationMarker) (st : RuntimeState) (d : AuthorizationDecision)
      → ¬ Allows (deny_revoked settings key request r m st) d
  deny_revoked-Allows r m st d (h, a) =
      let made =
        record_made-Allows (revocation_denial r.new_id request m r.now)
          (dropped settings key request st) d (h, a) in
      let denied = denial-denies r.new_id request m r.now made in absurd (cc (a, denied))

  cached-Allows :
      (x : AuthorizationDecision) (made : Result AuthorizationError Entries) (st : RuntimeState)
      (d : AuthorizationDecision)
      → Allows (cached settings key request x made st) d
      → x ≡ d
  cached-Allows x (ok es) st d (h, a) = ground arith
  cached-Allows x (err e) st d (h, a) = absurd (ground arith)

  return_decision-Allows :
      (given : Bool) (r : Reads) (x : AuthorizationDecision) (st : RuntimeState)
      (d : AuthorizationDecision)
      → Allows (return_decision settings key request given r x st) d
      → x ≡ d
  return_decision-Allows true r x st d h =
      cached-Allows x (cache_allow settings key x r.stamp_after r.now st.entries) st d h
  return_decision-Allows false r x st d (h, a) = ground arith

  finish-Allows :
      (r : Reads) (x : AuthorizationDecision)
      (found : Result RuntimeError (Option RevocationMarker)) (st : RuntimeState)
      (d : AuthorizationDecision)
      → Allows (finish settings key request r x found st) d
      → (x ≡ d) × ((found ≡ ok none) ⊎ (found ≡ err registry_unavailable))
  finish-Allows r x (ok (some m)) st d h = absurd (deny_revoked-Allows r m st d h)
  finish-Allows r x (ok none) st d h = (return_decision-Allows (allowed x) r x st d h, inl refl)
  finish-Allows r x (err registry_unavailable) st d (h, a) = (ground arith, inr refl)
  finish-Allows r x (err runtime_unavailable) st d (h, a) = absurd (ground arith)
  finish-Allows r x (err (other e)) st d (h, a) = absurd (ground arith)

  last :
      (r : Reads) (x d : AuthorizationDecision)
      → x ≡ d
      → (revocation_after settings key request r x ≡ ok none)
        ⊎ (revocation_after settings key request r x ≡ err registry_unavailable)
      → (revocation_after settings key request r d ≡ ok none) ⊎ IsUnavailable r d
  last r x d q (inl f) = inl (subst (λ y. revocation_after settings key request r y ≡ ok none) q f)
  last r x d q (inr f) = inr (
      at_last
        (subst (λ y. revocation_after settings key request r y ≡ err registry_unavailable) q f))

  settle-Allows :
      (same available : Bool) (r : Reads) (x : AuthorizationDecision) (st : RuntimeState)
      (d : AuthorizationDecision)
      → (available ≡ false → IsUnavailable r d)
      → Allows (settle settings key request same available r x st) d
      → (x ≡ d)
        × (same ≡ true)
        × ((revocation_after settings key request r d ≡ ok none) ⊎ IsUnavailable r d)
  settle-Allows false available r x st d u (h, a) = absurd (ground arith)
  settle-Allows true true r x st d u h =
      let (q, f) = finish-Allows r x (revocation_after settings key request r x) st d h in
      (q, refl, last r x d q f)
  settle-Allows true false r x st d u (h, a) = (ground arith, refl, inr (u refl))

  behind_engine-Allows :
      (es₀ : Entries) (available : Bool) (r : Reads)
      (made : Result AuthorizationError AuthorizationDecision) (st : RuntimeState)
      (d : AuthorizationDecision)
      → (available ≡ false → IsUnavailable r d)
      → ((x : AuthorizationDecision)
          → made ≡ ok x
          → decide r.ports r.engine_id r.engine_now request ≡ ok x)
      → Allows (behind_engine settings key request available r made st) d
      → IsJustified r es₀ d
  behind_engine-Allows es₀ available r (ok x) st d u q h =
      let (e, s, f) =
        settle-Allows (stamp_beq r.stamp_after r.stamp_before) available r x st d u h in
      by_engine (q x refl ∙ ap ok e) s f
  behind_engine-Allows es₀ available r (err e) st d u q (h, a) = absurd (ground arith)

  ask_engine-Allows :
      (es₀ : Entries) (available : Bool) (r : Reads) (st : RuntimeState) (d : AuthorizationDecision)
      → (available ≡ false → IsUnavailable r d)
      → Allows (ask_engine settings key request available r st) d
      → IsJustified r es₀ d
  unfolding ask_engine Calls.authorize
  ask_engine-Allows es₀ available r st d u h =
      let (made, log) =
        Calls.authorize r.ports settings.audit r.engine_id r.engine_now request st.log in
      behind_engine-Allows es₀ available r made (record st { log = log }) d u
        (λ x e.
          recorded-eq-ok settings.audit (decide r.ports r.engine_id r.engine_now request) st.log e)
        h

  answer_hit-Allows :
      (es₀ : Entries) (r : Reads) (e : AuthorizationCacheEntry)
      (found : Result RuntimeError (Option RevocationMarker)) (st : RuntimeState)
      (d : AuthorizationDecision)
      → revocation_hit settings key request r e ≡ found
      → In (key, e) es₀ × (valid_for r.stamp_before r.now e ≡ true)
      → stamp_beq r.stamp_hit r.stamp_before ≡ true
      → Allows (answer_hit settings key request r e found st) d
      → IsJustified r es₀ d
  answer_hit-Allows es₀ r e (ok (some m)) st d q v s h = absurd (deny_revoked-Allows r m st d h)
  answer_hit-Allows es₀ r e (ok none) st d q v s h =
      by_cache e v.0 v.1 s q
        (record_made-Allows (to_decision r.new_id request r.now e.decision) st d h)
  answer_hit-Allows es₀ r e (err registry_unavailable) st d q v s h =
      ask_engine-Allows es₀ false r (dropped settings key request st) d (λ _. at_hit e q) h
  answer_hit-Allows es₀ r e (err runtime_unavailable) st d q v s (h, a) = absurd (ground arith)
  answer_hit-Allows es₀ r e (err (other x)) st d q v s (h, a) = absurd (ground arith)

  hit-Allows :
      (es₀ : Entries) (same : Bool) (r : Reads) (e : AuthorizationCacheEntry) (st : RuntimeState)
      (d : AuthorizationDecision)
      → stamp_beq r.stamp_hit r.stamp_before ≡ same
      → In (key, e) es₀ × (valid_for r.stamp_before r.now e ≡ true)
      → Allows (hit settings key request same r e st) d
      → IsJustified r es₀ d
  hit-Allows es₀ true r e st d s v h =
      answer_hit-Allows es₀ r e (revocation_hit settings key request r e) st d refl v s h
  hit-Allows es₀ false r e st d s v (h, a) = absurd (ground arith)

  looked_up-Allows :
      (es₀ : Entries) (r : Reads)
      (found : Result AuthorizationError (Option AuthorizationCacheEntry × Entries))
      (st : RuntimeState) (d : AuthorizationDecision)
      → ((e : AuthorizationCacheEntry) (es : Entries)
          → found ≡ ok (some e, es)
          → In (key, e) es₀ × (valid_for r.stamp_before r.now e ≡ true))
      → Allows (looked_up settings key request r found st) d
      → IsJustified r es₀ d
  looked_up-Allows es₀ r (ok (some e, es)) st d f h =
      hit-Allows es₀ (stamp_beq r.stamp_hit r.stamp_before) r e (record st { entries = es }) d refl
        (f e es refl) h
  looked_up-Allows es₀ r (ok (none, es)) st d f h =
      ask_engine-Allows es₀ true r (record st { entries = es }) d (λ x. absurd (cc x)) h
  looked_up-Allows es₀ r (err e) st d f (h, a) = absurd (ground arith)

  get-valid_for :
      (stamp : SecurityStateStamp) (at : DateTime) (es : Entries) {e : AuthorizationCacheEntry}
      {es' : Entries}
      → Cache.get key stamp at es ≡ ok (some e, es')
      → In (key, e) es × (valid_for stamp at e ≡ true)
  unfolding Cache.get is_valid_for
  get-valid_for stamp at es {e} {es'} h = elim (Option-cases (find_entry key es)) [
    | inl n ↦ absurd (ground arith)
    | inr (x, f) ↦ elim (Bool-cases (valid_for stamp at x)) [
      | inl v ↦
          let same : x ≡ e = ground arith in
          subst (λ y. In (key, y) es × (valid_for stamp at y ≡ true)) same
            (find_entry-In key es f, v)
      | inr v ↦ absurd (ground arith)
    ]
  ]

  begin-Allows :
      (r : Reads) (found : Result RuntimeError (Option RevocationMarker)) (st : RuntimeState)
      (d : AuthorizationDecision)
      → request_revocation r.registry_before request r.stamp_before r.now ≡ found
      → Allows (begin settings key request r found st) d
      → IsJustified r st.entries d
  begin-Allows r (ok (some m)) st d q h = absurd (deny_revoked-Allows r m st d h)
  begin-Allows r (ok none) st d q h =
      looked_up-Allows st.entries r (Cache.get key r.stamp_before r.now st.entries) st d
        (λ e es g. get-valid_for r.stamp_before r.now st.entries g) h
  begin-Allows r (err registry_unavailable) st d q h =
      ask_engine-Allows st.entries false r (dropped settings key request st) d (λ _. at_first q) h
  begin-Allows r (err runtime_unavailable) st d q (h, a) = absurd (ground arith)
  begin-Allows r (err (other e)) st d q (h, a) = absurd (ground arith)

  attempt-Allows :
      (r : Reads) (st : RuntimeState) (d : AuthorizationDecision)
      → Allows (attempt settings key request r st) d
      → IsJustified r st.entries d
  unfolding attempt
  attempt-Allows r st d h =
      begin-Allows r (request_revocation r.registry_before request r.stamp_before r.now) st d refl h

  conclude-ok :
      (v : Verdict) (next : RuntimeState → Result RuntimeError AuthorizationDecision × RuntimeState)
      (st : RuntimeState) (d : AuthorizationDecision)
      → (conclude v next st).0 ≡ ok d
      → ((v ≡ again) × ((next st).0 ≡ ok d)) ⊎ (v ≡ decided (ok d))
  conclude-ok again next st d h = inl (refl, h)
  conclude-ok (decided r) next st d h = inr (ap decided h)

  widened :
      (r : Reads) (es' es : Entries) (d : AuthorizationDecision)
      → Among es' es
      → IsJustified r es' d
      → IsJustified r es d
  widened r es' es d among (by_cache e i v s q h) = by_cache e (among (key, e) i) v s q h
  widened r es' es d among (by_engine h s f) = by_engine h s f

  loop-Allows :
      (reads : ℕ → Reads) (n i : ℕ) (st : RuntimeState) (d : AuthorizationDecision)
      → (loop settings key request reads n i st).0 ≡ ok d
      → allowed d ≡ true
      → (j : ℕ) × (j < i + n) × IsJustified (reads j) st.entries d
  unfolding loop
  loop-Allows reads zero i st d h a = absurd (ground arith)
  loop-Allows reads (suc n) i st d h a =
      let step = attempt settings key request (reads i) st in
      elim (conclude-ok step.0 (loop settings key request reads n (suc i)) step.1 d h) [
        | inl (v, g) ↦
            let (j, l, p) = loop-Allows reads n (suc i) step.1 d g a in
            let among = attempt-Shrinks settings key request st.entries (reads i) st (λ q x. x) v in
            (j, omega arith, widened (reads j) step.1.entries st.entries d among p)
        | inr v ↦ (i, omega arith, attempt-Allows (reads i) st d (v, a))
      ]

  pub authorize-IsJustified :
      (reads : ℕ → Reads) (st : RuntimeState) (d : AuthorizationDecision)
      → (authorize settings key request reads st).0 ≡ ok d
      → allowed d ≡ true
      → (i : ℕ) × (i ≤ settings.max_state_retries) × IsJustified (reads i) st.entries d
  unfolding authorize
  authorize-IsJustified reads st d h a =
      let (i, l, p) = loop-Allows reads (suc settings.max_state_retries) 0 st d h a in
      (i, omega arith, p)
