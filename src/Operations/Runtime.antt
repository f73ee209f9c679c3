-- ===== src/Operations/Runtime.antt =====
-- src/pyiamkit/operations/runtime.py: `authorize` of DistributedAuthorizationRuntime.
pub mod Bounded
pub mod Justified
mod Shrinking
pub mod Answers
use pyiamkit.Prelude.{
  ℕ, zero, suc, Bool, true, false, ◌&&◌, Option, none, some, Result, ok, err, Text, ◌>>=◌, map_err,
  if◌then◌else◌,
}
use pyiamkit.Authorization.Values.{AuthorizationError}
use pyiamkit.Authorization.Requests.{AuthorizationRequest}
use pyiamkit.Authorization.Decisions.{AuthorizationDecision, allowed}
use pyiamkit.Authorization.Engine.Calls.{record_decision}
use pyiamkit.Authorization.Engine.Calls
use pyiamkit.Operations.State.{stamp_beq}
use pyiamkit.Operations.Cache.{from_decision, to_decision, AuthorizationCacheEntry, Entries, delete}
use pyiamkit.Operations.Cache
use pyiamkit.Operations.Revocation.{RevocationMarker}
use pyiamkit.Operations.Checks.{
  RuntimeError, registry_unavailable, runtime_unavailable, other, Reads, Settings, RuntimeState,
  request_revocation, semantic_revocation, or_marker, cache_allow, revocation_denial,
}

-- How an iteration ends: `continue`, or with a `return` or an exception.
pub data Verdict : Type 0 where
  again : Verdict
  decided : Result RuntimeError AuthorizationDecision → Verdict

abbrev pub Step : Type 0
Step = RuntimeState → Verdict × RuntimeState

abbrev pub raises : RuntimeError → Step
raises e st = (decided (err e), st)

abbrev pub conclude :
    Verdict
    → (RuntimeState → Result RuntimeError AuthorizationDecision × RuntimeState)
    → RuntimeState
    → Result RuntimeError AuthorizationDecision × RuntimeState
conclude again next st = next st
conclude (decided r) next st = (r, st)

module _ (settings : Settings) (key : Text) (request : AuthorizationRequest) where
  -- `_record`, of a decision whose constructor may raise; the audit sink may raise too.
  abbrev pub record_made : Result AuthorizationError AuthorizationDecision → Step
  record_made (ok d) st =
      let (r, log) = record_decision settings.audit d st.log in
      (decided (map_err other r), record st { log = log })
  record_made (err e) st = raises (other e) st

  -- `self._cache.delete(key)`.
  abbrev pub dropped : RuntimeState → RuntimeState
  dropped st = record st { entries = delete key st.entries }

  abbrev pub deny_revoked : Reads → RevocationMarker → Step
  deny_revoked r m st = record_made (revocation_denial r.new_id request m r.now) (dropped st)

  abbrev pub cached : AuthorizationDecision → Result AuthorizationError Entries → Step
  cached d (ok es) st = (decided (ok d), record st { entries = es })
  cached d (err e) st = raises (other e) st

  -- The end of an iteration, by `decision.allowed and revocations_available`.
  abbrev pub return_decision : Bool → Reads → AuthorizationDecision → Step
  return_decision true r d st =
      cached d (cache_allow settings key d r.stamp_after r.now st.entries) st
  return_decision false r d st = (decided (ok d), st)

  abbrev pub if_allowed :
      Bool
      → Result RuntimeError (Option RevocationMarker)
      → Result RuntimeError (Option RevocationMarker)
  if_allowed true check = check
  if_allowed false check = ok none

  abbrev pub revocation_after :
      Reads → AuthorizationDecision → Result RuntimeError (Option RevocationMarker)
  revocation_after r d =
      request_revocation r.registry_after request r.stamp_after r.now >>= λ found. or_marker found (
        if_allowed (allowed d)
          (semantic_revocation r.registry_after (from_decision d) r.stamp_after r.now))

  abbrev pub finish :
      Reads → AuthorizationDecision → Result RuntimeError (Option RevocationMarker) → Step
  finish r d (ok (some m)) st = deny_revoked r m st
  finish r d (ok none) st = return_decision (allowed d) r d st
  finish r d (err registry_unavailable) st = (decided (ok d), dropped st)
  finish r d (err runtime_unavailable) st = raises runtime_unavailable st
  finish r d (err (other e)) st = raises (other e) st

  -- A decision of the engine: the stamp has changed, or not; and `revocations_available`.
  abbrev pub settle : Bool → Bool → Reads → AuthorizationDecision → Step
  settle false available r d st = (again, dropped st)
  settle true true r d st = finish r d (revocation_after r d) st
  settle true false r d st = (decided (ok d), st)

  abbrev pub behind_engine : Bool → Reads → Result AuthorizationError AuthorizationDecision → Step
  behind_engine available r (ok d) st =
      settle (stamp_beq r.stamp_after r.stamp_before) available r d st
  behind_engine available r (err e) st = raises (other e) st

  unfoldable pub ask_engine : Bool → Reads → Step
  ask_engine available r st =
      let (d, log) =
        Calls.authorize r.ports settings.audit r.engine_id r.engine_now request st.log in
      behind_engine available r d (record st { log = log })

  -- A hit of the cache, by what the markers say of it.
  abbrev pub answer_hit :
      Reads → AuthorizationCacheEntry → Result RuntimeError (Option RevocationMarker) → Step
  answer_hit r e (ok (some m)) st = deny_revoked r m st
  answer_hit r e (ok none) st = record_made (to_decision r.new_id request r.now e.decision) st
  answer_hit r e (err registry_unavailable) st = ask_engine false r (dropped st)
  answer_hit r e (err runtime_unavailable) st = raises runtime_unavailable st
  answer_hit r e (err (other x)) st = raises (other x) st

  abbrev pub revocation_hit :
      Reads → AuthorizationCacheEntry → Result RuntimeError (Option RevocationMarker)
  revocation_hit r e = semantic_revocation r.registry_hit e.decision r.stamp_hit r.now >>= λ found.
      or_marker found (request_revocation r.registry_hit request r.stamp_hit r.now)

  abbrev pub hit : Bool → Reads → AuthorizationCacheEntry → Step
  hit true r e st = answer_hit r e (revocation_hit r e) st
  hit false r e st = (again, st)

  abbrev pub looked_up :
      Reads → Result AuthorizationError (Option AuthorizationCacheEntry × Entries) → Step
  looked_up r (ok (some e, es)) st =
      hit (stamp_beq r.stamp_hit r.stamp_before) r e (record st { entries = es })
  looked_up r (ok (none, es)) st = ask_engine true r (record st { entries = es })
  looked_up r (err e) st = raises (other e) st

  abbrev pub begin : Reads → Result RuntimeError (Option RevocationMarker) → Step
  begin r (ok (some m)) st = deny_revoked r m st
  begin r (ok none) st = looked_up r (Cache.get key r.stamp_before r.now st.entries) st
  begin r (err registry_unavailable) st = ask_engine false r (dropped st)
  begin r (err runtime_unavailable) st = raises runtime_unavailable st
  begin r (err (other e)) st = raises (other e) st

  -- One iteration.
  unfoldable pub attempt : Reads → Step
  attempt r st = begin r (request_revocation r.registry_before request r.stamp_before r.now) st

  -- The iterations that are left, of which the next is the `i`-th.
  unfoldable pub loop :
      (ℕ → Reads) → ℕ → ℕ → RuntimeState → Result RuntimeError AuthorizationDecision × RuntimeState
  loop reads zero i st = (err runtime_unavailable, st)
  loop reads (suc n) i st =
      let (v, st') = attempt (reads i) st in conclude v (loop reads n (suc i)) st'

  unfoldable pub authorize :
      (ℕ → Reads) → RuntimeState → Result RuntimeError AuthorizationDecision × RuntimeState
  authorize reads st = loop reads (suc settings.max_state_retries) 0 st
