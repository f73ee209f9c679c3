-- ===== src/Operations/Runtime/Shrinking.antt =====
-- src/pyiamkit/operations/runtime.py: an iteration that is followed by another one adds no entry to the
-- cache.
use pyiamkit.Prelude.{
  ◌≡◌, refl, Bool, true, false, Option, none, some, Result, ok, err, Text, In, inl, inr, Bool-cases,
  Option-cases, subst, [], ◌∷◌, arith,
}
use pyiamkit.Shared.{DateTime}
use pyiamkit.Prelude.{text_beq_iff, text_beq}
use pyiamkit.Authorization.Values.{AuthorizationError}
use pyiamkit.Authorization.Requests.{AuthorizationRequest}
use pyiamkit.Authorization.Decisions.{AuthorizationDecision, allowed}
use pyiamkit.Authorization.Engine.Calls.{record_decision}
use pyiamkit.Authorization.Engine.Calls
use pyiamkit.Operations.State.{SecurityStateStamp, stamp_beq}
use pyiamkit.Operations.Cache.{
  AuthorizationCacheEntry, Entries, delete, find_entry, is_valid_for, valid_for, to_decision,
}
use pyiamkit.Operations.Cache
use pyiamkit.Operations.Revocation.{RevocationMarker}
use pyiamkit.Operations.Checks.{
  RuntimeError, registry_unavailable, runtime_unavailable, other, Reads, Settings, RuntimeState,
  cache_allow, revocation_denial, request_revocation,
}
use pyiamkit.Operations.Runtime.{
  Verdict, again, record_made, dropped, deny_revoked, cached, return_decision, finish, settle,
  behind_engine, ask_engine, answer_hit, hit, looked_up, begin, attempt, revocation_after,
  revocation_hit,
}

-- The entries `es'` are among `es`.
abbrev pub Among : Entries → Entries → Type 0
Among es' es = (p : Text × AuthorizationCacheEntry) → In p es' → In p es

delete-Among : (k : Text) (es : Entries) → Among (delete k es) es
unfolding delete
delete-Among k [] p i = i
delete-Among k ((j, e) ∷ es) p i = elim (Bool-cases (text_beq k j)) [
  | inl t ↦ inr (rw t at i)
  | inr f ↦ elim (rw f at i) [ inl q ↦ inl q | inr n ↦ inr (delete-Among k es p n) ]
]

pub find_entry-In :
    (k : Text) (es : Entries) {e : AuthorizationCacheEntry}
    → find_entry k es ≡ some e
    → In (k, e) es
unfolding find_entry
find_entry-In k [] h = absurd (ground arith)
find_entry-In k ((j, x) ∷ es) {e} h = elim (Bool-cases (text_beq k j)) [
  | inl t ↦
      let same : k ≡ j = (text_beq_iff k j).0 t in
      let found : x ≡ e = ground (arith, t) in inl (cc (same, found))
  | inr f ↦ inr (find_entry-In k es (rw f at h))
]

get-Among :
    (k : Text) (stamp : SecurityStateStamp) (at : DateTime) (es : Entries)
    {o : Option AuthorizationCacheEntry} {es' : Entries}
    → Cache.get k stamp at es ≡ ok (o, es')
    → Among es' es
unfolding Cache.get is_valid_for
get-Among k stamp at es {o} {es'} h = elim (Option-cases (find_entry k es)) [
  | inl n ↦ let same : es ≡ es' = ground arith in subst (λ x. Among x es) same (λ p i. i)
  | inr (x, f) ↦ elim (Bool-cases (valid_for stamp at x)) [
    | inl v ↦ let same : es ≡ es' = ground arith in subst (λ x. Among x es) same (λ p i. i)
    | inr v ↦
        let same : delete k es ≡ es' = ground arith in
        subst (λ x. Among x es) same (delete-Among k es)
  ]
]

-- An iteration that ends in `again` leaves entries of `es` only.
abbrev pub Shrinks : Verdict × RuntimeState → Entries → Type 0
Shrinks s es = s.0 ≡ again → Among s.1.entries es

module _ (settings : Settings) (key : Text) (request : AuthorizationRequest) (es : Entries) where
  record_made-Shrinks :
      (made : Result AuthorizationError AuthorizationDecision) (st : RuntimeState)
      → Shrinks (record_made settings key request made st) es
  record_made-Shrinks (ok d) st = λ h. absurd (ground arith)
  record_made-Shrinks (err e) st = λ h. absurd (ground arith)

  deny_revoked-Shrinks :
      (r : Reads) (m : RevocationMarker) (st : RuntimeState)
      → Shrinks (deny_revoked settings key request r m st) es
  deny_revoked-Shrinks r m st =
      record_made-Shrinks (revocation_denial r.new_id request m r.now)
        (dropped settings key request st)

  cached-Shrinks :
      (d : AuthorizationDecision) (made : Result AuthorizationError Entries) (st : RuntimeState)
      → Shrinks (cached settings key request d made st) es
  cached-Shrinks d (ok x) st = λ h. absurd (ground arith)
  cached-Shrinks d (err e) st = λ h. absurd (ground arith)

  return_decision-Shrinks :
      (given : Bool) (r : Reads) (d : AuthorizationDecision) (st : RuntimeState)
      → Shrinks (return_decision settings key request given r d st) es
  return_decision-Shrinks true r d st =
      cached-Shrinks d (cache_allow settings key d r.stamp_after r.now st.entries) st
  return_decision-Shrinks false r d st = λ h. absurd (ground arith)

  finish-Shrinks :
      (r : Reads) (d : AuthorizationDecision)
      (found : Result RuntimeError (Option RevocationMarker)) (st : RuntimeState)
      → Shrinks (finish settings key request r d found st) es
  finish-Shrinks r d (ok (some m)) st = deny_revoked-Shrinks r m st
  finish-Shrinks r d (ok none) st = return_decision-Shrinks (allowed d) r d st
  finish-Shrinks r d (err registry_unavailable) st = λ h. absurd (ground arith)
  finish-Shrinks r d (err runtime_unavailable) st = λ h. absurd (ground arith)
  finish-Shrinks r d (err (other e)) st = λ h. absurd (ground arith)

  dropped-Among :
      (st : RuntimeState) → Among st.entries es → Among (dropped settings key request st).entries es
  dropped-Among st among p i = among p (delete-Among key st.entries p i)

  settle-Shrinks :
      (same available : Bool) (r : Reads) (d : AuthorizationDecision) (st : RuntimeState)
      → Among st.entries es
      → Shrinks (settle settings key request same available r d st) es
  settle-Shrinks false available r d st among = λ _. dropped-Among st among
  settle-Shrinks true true r d st among =
      finish-Shrinks r d (revocation_after settings key request r d) st
  settle-Shrinks true false r d st among = λ h. absurd (ground arith)

  behind_engine-Shrinks :
      (available : Bool) (r : Reads) (made : Result AuthorizationError AuthorizationDecision)
      (st : RuntimeState)
      → Among st.entries es
      → Shrinks (behind_engine settings key request available r made st) es
  behind_engine-Shrinks available r (ok d) st among =
      settle-Shrinks (stamp_beq r.stamp_after r.stamp_before) available r d st among
  behind_engine-Shrinks available r (err e) st among = λ h. absurd (ground arith)

  ask_engine-Shrinks :
      (available : Bool) (r : Reads) (st : RuntimeState)
      → Among st.entries es
      → Shrinks (ask_engine settings key request available r st) es
  unfolding ask_engine
  ask_engine-Shrinks available r st among =
      let (d, log) =
        Calls.authorize r.ports settings.audit r.engine_id r.engine_now request st.log in
      behind_engine-Shrinks available r d (record st { log = log }) among

  answer_hit-Shrinks :
      (r : Reads) (e : AuthorizationCacheEntry)
      (found : Result RuntimeError (Option RevocationMarker)) (st : RuntimeState)
      → Among st.entries es
      → Shrinks (answer_hit settings key request r e found st) es
  answer_hit-Shrinks r e (ok (some m)) st among = deny_revoked-Shrinks r m st
  answer_hit-Shrinks r e (ok none) st among =
      record_made-Shrinks (to_decision r.new_id request r.now e.decision) st
  answer_hit-Shrinks r e (err registry_unavailable) st among =
      ask_engine-Shrinks false r (dropped settings key request st) (dropped-Among st among)
  answer_hit-Shrinks r e (err runtime_unavailable) st among = λ h. absurd (ground arith)
  answer_hit-Shrinks r e (err (other x)) st among = λ h. absurd (ground arith)

  hit-Shrinks :
      (same : Bool) (r : Reads) (e : AuthorizationCacheEntry) (st : RuntimeState)
      → Among st.entries es
      → Shrinks (hit settings key request same r e st) es
  hit-Shrinks true r e st among =
      answer_hit-Shrinks r e (revocation_hit settings key request r e) st among
  hit-Shrinks false r e st among = λ _. among

  looked_up-Shrinks :
      (r : Reads) (found : Result AuthorizationError (Option AuthorizationCacheEntry × Entries))
      (st : RuntimeState)
      → ((o : Option AuthorizationCacheEntry) (es' : Entries) → found ≡ ok (o, es') → Among es' es)
      → Shrinks (looked_up settings key request r found st) es
  looked_up-Shrinks r (ok (some e, es')) st f =
      hit-Shrinks (stamp_beq r.stamp_hit r.stamp_before) r e (record st { entries = es' })
        (f (some e) es' refl)
  looked_up-Shrinks r (ok (none, es')) st f =
      ask_engine-Shrinks true r (record st { entries = es' }) (f none es' refl)
  looked_up-Shrinks r (err e) st f = λ h. absurd (ground arith)

  begin-Shrinks :
      (r : Reads) (found : Result RuntimeError (Option RevocationMarker)) (st : RuntimeState)
      → Among st.entries es
      → Shrinks (begin settings key request r found st) es
  begin-Shrinks r (ok (some m)) st among = deny_revoked-Shrinks r m st
  begin-Shrinks r (ok none) st among =
      looked_up-Shrinks r (Cache.get key r.stamp_before r.now st.entries) st
        (λ o es' g p i. among p (get-Among key r.stamp_before r.now st.entries g p i))
  begin-Shrinks r (err registry_unavailable) st among =
      ask_engine-Shrinks false r (dropped settings key request st) (dropped-Among st among)
  begin-Shrinks r (err runtime_unavailable) st among = λ h. absurd (ground arith)
  begin-Shrinks r (err (other e)) st among = λ h. absurd (ground arith)

  pub attempt-Shrinks :
      (r : Reads) (st : RuntimeState)
      → Among st.entries es
      → Shrinks (attempt settings key request r st) es
  unfolding attempt
  attempt-Shrinks r st among =
      begin-Shrinks r (request_revocation r.registry_before request r.stamp_before r.now) st among
