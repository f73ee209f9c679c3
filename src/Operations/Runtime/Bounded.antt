-- ===== src/Operations/Runtime/Bounded.antt =====
-- How long the runtime keeps a decision in the cache.
use pyiamkit.Prelude.{
  ℕ, zero, suc, ◌+◌, ◌≡◌, ◌≤◌, refl, subst, Bool, true, false, Option, none, some, Result, ok, err,
  Text, Bool-cases, Option-cases, if◌then◌else◌, All, inl, inr, arith,
}
use pyiamkit.Shared.{DateTime, before}
use pyiamkit.Authorization.Values.{AuthorizationError}
use pyiamkit.Authorization.Requests.{AuthorizationRequest}
use pyiamkit.Authorization.Decisions.{AuthorizationDecision, allowed}
use pyiamkit.Authorization.Engine.Calls
use pyiamkit.Operations.State.{SecurityStateStamp, stamp_beq}
use pyiamkit.Operations.Cache.{
  CachedAuthorizationDecision, cached_allowed, AuthorizationCacheEntry, Entries, delete, put,
  store_entry, find_entry, is_valid_for, valid_for, answer_entry, from_decision, make_entry,
}
use pyiamkit.Operations.Cache
use pyiamkit.Operations.Cache.Kept.{delete-All, put-All}
use pyiamkit.Operations.Revocation.{RevocationMarker}
use pyiamkit.Operations.Checks.{
  RuntimeError, registry_unavailable, runtime_unavailable, other, Reads, Settings, RuntimeState,
  entry_end, cache_allow, put_made, revocation_denial, request_revocation,
}
use pyiamkit.Operations.Runtime.{
  Verdict, again, decided, record_made, dropped, deny_revoked, cached, return_decision, finish,
  settle, behind_engine, ask_engine, answer_hit, hit, looked_up, begin, attempt, conclude, loop,
  authorize, revocation_after, revocation_hit,
}

-- An allowed decision, that is kept from the moment when it was cached for the time to live at most,
-- and not beyond its own end.
pub record IsBounded (ttl : ℕ) (e : Text × AuthorizationCacheEntry) : Type 0 where
  pub allows : cached_allowed e.1.decision ≡ true
  pub later : before e.1.cached_at e.1.expires_at ≡ true
  pub within : e.1.expires_at.instant ≤ e.1.cached_at.instant + ttl
  pub ends : (u : DateTime) → e.1.decision.valid_until ≡ some u → e.1.expires_at.instant ≤ u.instant

put_made-All :
    (P : Text × AuthorizationCacheEntry → Type 0) (cache_denials : Bool) (es : Entries)
    (made : Result AuthorizationError AuthorizationCacheEntry) {es' : Entries}
    → ((e : AuthorizationCacheEntry) → made ≡ ok e → P (e.key, e))
    → All P es
    → put_made cache_denials es made ≡ ok es'
    → All P es'
put_made-All P cache_denials es (ok e) {es'} p h q =
    let same : put cache_denials e es ≡ es' = ground arith in
    subst (All P) same (put-All P cache_denials e es (p e refl) h)
put_made-All P cache_denials es (err e) p h q = absurd (ground arith)

if_true : {A : Type 0} (b : Bool) (x y z : A) → b ≡ true → (if b then x else y) ≡ z → x ≡ z
if_true true x y z q h = h
if_true false x y z q h = absurd (ground arith)

if_false : {A : Type 0} (b : Bool) (x y z : A) → b ≡ false → (if b then x else y) ≡ z → y ≡ z
if_false true x y z q h = absurd (ground arith)
if_false false x y z q h = h

made_same : (e e' : AuthorizationCacheEntry) → make_entry e ≡ ok e' → e ≡ e'
unfolding make_entry
made_same e e' h = ground arith

module _ (settings : Settings) (key : Text) (request : AuthorizationRequest) where
  abbrev Bounded : Entries → Type 0
  Bounded = All (IsBounded settings.cache_ttl)

  abbrev Keeps : Verdict × RuntimeState → Type 0
  Keeps s = Bounded s.1.entries

  end-later :
      (at : DateTime) (until : Option DateTime)
      → (entry_end settings.cache_ttl at until).instant ≤ at.instant + settings.cache_ttl
  end-later at none = ground arith
  end-later at (some u) = ground arith

  end-ends :
      (at u : DateTime) (until : Option DateTime)
      → until ≡ some u
      → (entry_end settings.cache_ttl at until).instant ≤ u.instant
  end-ends at u none h = ground arith
  end-ends at u (some v) h = ground arith

  cache_allow-Bounded :
      (d : AuthorizationDecision) (stamp : SecurityStateStamp) (at : DateTime) (es : Entries)
      {es' : Entries}
      → allowed d ≡ true
      → Bounded es
      → cache_allow settings key d stamp at es ≡ ok es'
      → Bounded es'
  unfolding cache_allow
  cache_allow-Bounded d stamp at es {es'} a b h =
      let end = entry_end settings.cache_ttl at d.valid_until in
      let new : AuthorizationCacheEntry = record {
        key = key;
        decision = from_decision d;
        state_stamp = stamp;
        cached_at = at;
        expires_at = end;
      } in
      elim (Bool-cases (before at end)) [
        | inl l ↦
            let bound : IsBounded settings.cache_ttl (key, new) = record {
              allows = a;
              later = l;
              within = end-later at d.valid_until;
              ends = λ u q. end-ends at u d.valid_until q;
            } in
            put_made-All (IsBounded settings.cache_ttl) settings.cache_denials es (make_entry new)
              (λ e q.
                subst (λ (x : AuthorizationCacheEntry). IsBounded settings.cache_ttl (x.key, x))
                  (made_same new e q) bound)
              b (if_true (before at end) _ _ _ l h)
        | inr l ↦
            let same : ok es ≡ ok es' = if_false (before at end) _ _ _ l h in
            subst Bounded (ground arith) b
      ]

  -- The steps of an iteration.
  record_made-Keeps :
      (r : Result AuthorizationError AuthorizationDecision) (st : RuntimeState)
      → Bounded st.entries
      → Keeps (record_made settings key request r st)
  record_made-Keeps (ok d) st b = b
  record_made-Keeps (err e) st b = b

  dropped-Bounded :
      (st : RuntimeState) → Bounded st.entries → Bounded (dropped settings key request st).entries
  dropped-Bounded st b = delete-All (IsBounded settings.cache_ttl) key st.entries b

  deny_revoked-Keeps :
      (r : Reads) (m : RevocationMarker) (st : RuntimeState)
      → Bounded st.entries
      → Keeps (deny_revoked settings key request r m st)
  deny_revoked-Keeps r m st b =
      record_made-Keeps (revocation_denial r.new_id request m r.now)
        (dropped settings key request st) (dropped-Bounded st b)

  cached-Keeps :
      (d : AuthorizationDecision) (made : Result AuthorizationError Entries) (st : RuntimeState)
      → ((es : Entries) → made ≡ ok es → Bounded es)
      → Bounded st.entries
      → Keeps (cached settings key request d made st)
  cached-Keeps d (ok es) st f b = f es refl
  cached-Keeps d (err e) st f b = b

  return_decision-Keeps :
      (given : Bool) (r : Reads) (d : AuthorizationDecision) (st : RuntimeState)
      → allowed d ≡ given
      → Bounded st.entries
      → Keeps (return_decision settings key request given r d st)
  return_decision-Keeps true r d st a b =
      cached-Keeps d (cache_allow settings key d r.stamp_after r.now st.entries) st
        (λ es h. cache_allow-Bounded d r.stamp_after r.now st.entries a b h) b
  return_decision-Keeps false r d st a b = b

  finish-Keeps :
      (r : Reads) (d : AuthorizationDecision)
      (found : Result RuntimeError (Option RevocationMarker)) (st : RuntimeState)
      → Bounded st.entries
      → Keeps (finish settings key request r d found st)
  finish-Keeps r d (ok (some m)) st b = deny_revoked-Keeps r m st b
  finish-Keeps r d (ok none) st b = return_decision-Keeps (allowed d) r d st refl b
  finish-Keeps r d (err registry_unavailable) st b = dropped-Bounded st b
  finish-Keeps r d (err runtime_unavailable) st b = b
  finish-Keeps r d (err (other e)) st b = b

  settle-Keeps :
      (same available : Bool) (r : Reads) (d : AuthorizationDecision) (st : RuntimeState)
      → Bounded st.entries
      → Keeps (settle settings key request same available r d st)
  settle-Keeps false available r d st b = dropped-Bounded st b
  settle-Keeps true true r d st b =
      finish-Keeps r d (revocation_after settings key request r d) st b
  settle-Keeps true false r d st b = b

  behind_engine-Keeps :
      (available : Bool) (r : Reads) (d : Result AuthorizationError AuthorizationDecision)
      (st : RuntimeState)
      → Bounded st.entries
      → Keeps (behind_engine settings key request available r d st)
  behind_engine-Keeps available r (ok d) st b =
      settle-Keeps (stamp_beq r.stamp_after r.stamp_before) available r d st b
  behind_engine-Keeps available r (err e) st b = b

  ask_engine-Keeps :
      (available : Bool) (r : Reads) (st : RuntimeState)
      → Bounded st.entries
      → Keeps (ask_engine settings key request available r st)
  unfolding ask_engine
  ask_engine-Keeps available r st b =
      let (d, log) =
        Calls.authorize r.ports settings.audit r.engine_id r.engine_now request st.log in
      behind_engine-Keeps available r d (record st { log = log }) b

  answer_hit-Keeps :
      (r : Reads) (e : AuthorizationCacheEntry)
      (found : Result RuntimeError (Option RevocationMarker)) (st : RuntimeState)
      → Bounded st.entries
      → Keeps (answer_hit settings key request r e found st)
  answer_hit-Keeps r e (ok (some m)) st b = deny_revoked-Keeps r m st b
  answer_hit-Keeps r e (ok none) st b =
      record_made-Keeps (Cache.to_decision r.new_id request r.now e.decision) st b
  answer_hit-Keeps r e (err registry_unavailable) st b =
      ask_engine-Keeps false r (dropped settings key request st) (dropped-Bounded st b)
  answer_hit-Keeps r e (err runtime_unavailable) st b = b
  answer_hit-Keeps r e (err (other x)) st b = b

  hit-Keeps :
      (same : Bool) (r : Reads) (e : AuthorizationCacheEntry) (st : RuntimeState)
      → Bounded st.entries
      → Keeps (hit settings key request same r e st)
  hit-Keeps true r e st b = answer_hit-Keeps r e (revocation_hit settings key request r e) st b
  hit-Keeps false r e st b = b

  looked_up-Keeps :
      (r : Reads) (found : Result AuthorizationError (Option AuthorizationCacheEntry × Entries))
      (st : RuntimeState)
      → ((e : Option AuthorizationCacheEntry) (es : Entries) → found ≡ ok (e, es) → Bounded es)
      → Bounded st.entries
      → Keeps (looked_up settings key request r found st)
  looked_up-Keeps r (ok (some e, es)) st f b =
      hit-Keeps (stamp_beq r.stamp_hit r.stamp_before) r e (record st { entries = es })
        (f (some e) es refl)
  looked_up-Keeps r (ok (none, es)) st f b =
      ask_engine-Keeps true r (record st { entries = es }) (f none es refl)
  looked_up-Keeps r (err e) st f b = b

  get-Bounded :
      (stamp : SecurityStateStamp) (at : DateTime) (es : Entries)
      {e : Option AuthorizationCacheEntry} {es' : Entries}
      → Bounded es
      → Cache.get key stamp at es ≡ ok (e, es')
      → Bounded es'
  unfolding Cache.get is_valid_for
  get-Bounded stamp at es {e} {es'} b h = elim (Option-cases (find_entry key es)) [
    | inl n ↦ let same : es ≡ es' = ground arith in subst Bounded same b
    | inr (x, f) ↦ elim (Bool-cases (valid_for stamp at x)) [
      | inl v ↦ let same : es ≡ es' = ground arith in subst Bounded same b
      | inr v ↦
          let same : delete key es ≡ es' = ground arith in
          subst Bounded same (delete-All (IsBounded settings.cache_ttl) key es b)
    ]
  ]

  begin-Keeps :
      (r : Reads) (found : Result RuntimeError (Option RevocationMarker)) (st : RuntimeState)
      → Bounded st.entries
      → Keeps (begin settings key request r found st)
  begin-Keeps r (ok (some m)) st b = deny_revoked-Keeps r m st b
  begin-Keeps r (ok none) st b =
      looked_up-Keeps r (Cache.get key r.stamp_before r.now st.entries) st
        (λ e es h. get-Bounded r.stamp_before r.now st.entries b h) b
  begin-Keeps r (err registry_unavailable) st b =
      ask_engine-Keeps false r (dropped settings key request st) (dropped-Bounded st b)
  begin-Keeps r (err runtime_unavailable) st b = b
  begin-Keeps r (err (other e)) st b = b

  attempt-Keeps :
      (r : Reads) (st : RuntimeState)
      → Bounded st.entries
      → Keeps (attempt settings key request r st)
  unfolding attempt
  attempt-Keeps r st b =
      begin-Keeps r (request_revocation r.registry_before request r.stamp_before r.now) st b

  conclude-Bounded :
      (v : Verdict) (next : RuntimeState → Result RuntimeError AuthorizationDecision × RuntimeState)
      (st : RuntimeState)
      → ((st' : RuntimeState) → Bounded st'.entries → Bounded (next st').1.entries)
      → Bounded st.entries
      → Bounded (conclude v next st).1.entries
  conclude-Bounded again next st f b = f st b
  conclude-Bounded (decided r) next st f b = b

  loop-Bounded :
      (reads : ℕ → Reads) (n i : ℕ) (st : RuntimeState)
      → Bounded st.entries
      → Bounded (loop settings key request reads n i st).1.entries
  unfolding loop
  loop-Bounded reads zero i st b = b
  loop-Bounded reads (suc n) i st b =
      let step = attempt settings key request (reads i) st in
      let kept : Bounded step.1.entries = attempt-Keeps (reads i) st b in
      conclude-Bounded step.0 (loop settings key request reads n (suc i)) step.1
        (λ st' b'. loop-Bounded reads n (suc i) st' b') kept

  -- Whatever the reads of its iterations give, `authorize` keeps what it may find in the cache: every
  -- entry is an allowed decision, that expires after it was cached, not more than the time to live
  -- later, and not after the end of the decision itself.
  pub authorize-IsBounded :
      (reads : ℕ → Reads) (st : RuntimeState)
      → All (IsBounded settings.cache_ttl) st.entries
      → All (IsBounded settings.cache_ttl) (authorize settings key request reads st).1.entries
  unfolding authorize
  authorize-IsBounded reads st b = loop-Bounded reads (suc settings.max_state_retries) 0 st b
