-- ===== src/Operations/Checks.antt =====
-- src/pyiamkit/operations/runtime.py: what DistributedAuthorizationRuntime reads, and its methods but for
-- the loop. Other threads and processes change what the runtime reads, so each iteration of its loop has
-- a record of what its reads gave; the cache and the audit log are passed on.
use pyiamkit.Prelude.{
  ℕ, ◌+◌, Bool, ◌&&◌, Option, none, some, [], ◌∷◌, ◌++◌, Result, ok, err, Text, codes, map_err,
  ◌>>=◌, if◌then◌else◌,
}
use pyiamkit.Shared.{DateTime, before, id_text}
use pyiamkit.Authorization.Values.{AuthorizationError}
use pyiamkit.Authorization.Requests.{AuthorizationRequest}
use pyiamkit.Authorization.Decisions.{
  AuthorizationReason, AuthorizationResult, AuthorizationDecision, ExplanationStep, check_decision,
}
use pyiamkit.Authorization.Engine.Repositories.{Ports}
use pyiamkit.Authorization.Engine.Calls.{AuditLog, AuditSink}
use pyiamkit.Operations.State.{SecurityStateStamp}
use pyiamkit.Operations.Cache.{
  CachedAuthorizationDecision, from_decision, AuthorizationCacheEntry, make_entry, Entries, put,
}
use pyiamkit.Operations.Revocation.{
  RevocationTargetType, RevocationMarker, target_value, is_active, applies_to,
}

-- RevocationRegistryUnavailable and AuthorizationRuntimeUnavailable, and what else is raised.
pub data RuntimeError : Type 0 where
  registry_unavailable runtime_unavailable : RuntimeError
  other : AuthorizationError → RuntimeError

-- `get` of the registry, as it stands at a moment.
abbrev pub Registry : Type 0
Registry = RevocationTargetType → Text → Result RuntimeError (Option RevocationMarker)

-- What the reads of one iteration give: the clock; the versions and the registry before, behind a hit
-- of the cache, and behind the engine; the engine's ports and clock; the identifiers of new decisions.
pub record Reads : Type 0 where
  pub now : DateTime
  pub stamp_before : SecurityStateStamp
  pub registry_before : Registry
  pub stamp_hit : SecurityStateStamp
  pub registry_hit : Registry
  pub ports : Ports
  pub engine_now : DateTime
  pub engine_id : ℕ
  pub stamp_after : SecurityStateStamp
  pub registry_after : Registry
  pub new_id : ℕ

-- `__init__`; the time to live is in microseconds.
pub record Settings : Type 0 where
  pub cache_ttl : ℕ
  pub max_state_retries : ℕ
  pub cache_denials : Bool
  pub audit : AuditSink

pub record RuntimeState : Type 0 where
  pub entries : Entries
  pub log : AuditLog

-- `_active_marker`, of what the registry gave.
abbrev marker_if : RevocationMarker → ℕ → Bool → Option RevocationMarker
marker_if m version active = if active && applies_to version m then some m else none

abbrev check_marker :
    ℕ → DateTime → Option RevocationMarker → Result RuntimeError (Option RevocationMarker)
check_marker version at none = ok none
check_marker version at (some m) =
    map_err other (is_active at m) >>= λ active. ok (marker_if m version active)

unfoldable pub active_marker :
    Registry
    → RevocationTargetType
    → Text
    → ℕ
    → DateTime
    → Result RuntimeError (Option RevocationMarker)
unfolding is_active applies_to
active_marker registry type target version at =
    registry type target >>= λ found. check_marker version at found

-- `if marker is not None: return marker`, and what comes behind it.
abbrev pub or_marker :
    Option RevocationMarker
    → Result RuntimeError (Option RevocationMarker)
    → Result RuntimeError (Option RevocationMarker)
or_marker (some m) next = ok (some m)
or_marker none next = next

unfoldable pub request_revocation :
    Registry
    → AuthorizationRequest
    → SecurityStateStamp
    → DateTime
    → Result RuntimeError (Option RevocationMarker)
unfolding active_marker
request_revocation registry request stamp at =
    active_marker registry RevocationTargetType.identity (id_text request.subject_id) stamp.identity
      at
    >>= λ found. or_marker found (
        active_marker registry RevocationTargetType.tenant (id_text request.tenant_id) stamp.tenant
          at)

abbrev marker_of :
    Registry
    → RevocationTargetType
    → Option ℕ
    → ℕ
    → DateTime
    → Result RuntimeError (Option RevocationMarker)
marker_of registry type none version at = ok none
marker_of registry type (some n) version at = active_marker registry type (id_text n) version at

-- `_semantic_revocation`; `_cached_revocation` and `_decision_revocation` call it.
unfoldable pub semantic_revocation :
    Registry
    → CachedAuthorizationDecision
    → SecurityStateStamp
    → DateTime
    → Result RuntimeError (Option RevocationMarker)
unfolding active_marker
semantic_revocation registry d stamp at =
    marker_of registry RevocationTargetType.membership d.matched_membership_id stamp.membership at
    >>= λ found. or_marker found (
        marker_of registry RevocationTargetType.role_binding d.matched_binding_id
          stamp.subject_authorization at)

-- The end of a new entry.
abbrev pub entry_end : ℕ → DateTime → Option DateTime → DateTime
entry_end ttl at none = record at { instant = at.instant + ttl }
entry_end ttl at (some u) =
    let end : DateTime = record at { instant = at.instant + ttl } in if before u end then u else end

abbrev pub put_made :
    Bool
    → Entries
    → Result AuthorizationError AuthorizationCacheEntry
    → Result AuthorizationError Entries
put_made cache_denials es (ok e) = ok (put cache_denials e es)
put_made cache_denials es (err e) = err e

-- `_cache_allow`.
unfoldable pub cache_allow :
    Settings
    → Text
    → AuthorizationDecision
    → SecurityStateStamp
    → DateTime
    → Entries
    → Result AuthorizationError Entries
unfolding from_decision make_entry put
cache_allow settings key d stamp at es =
    let end = entry_end settings.cache_ttl at d.valid_until in
    if before at end
    then put_made settings.cache_denials es (
        make_entry (record {
          key = key;
          decision = from_decision d;
          state_stamp = stamp;
          cached_at = at;
          expires_at = end;
        }))
    else ok es

abbrev denial_reason : RevocationTargetType → AuthorizationReason
denial_reason RevocationTargetType.identity = AuthorizationReason.deny_subject_inactive
denial_reason RevocationTargetType.tenant = AuthorizationReason.deny_tenant_inactive
denial_reason RevocationTargetType.membership = AuthorizationReason.deny_membership_not_found
denial_reason RevocationTargetType.role_binding = AuthorizationReason.deny_no_active_binding
denial_reason RevocationTargetType.session = AuthorizationReason.deny_authentication_context_missing

-- `_revocation_denial`.
unfoldable pub revocation_denial :
    ℕ
    → AuthorizationRequest
    → RevocationMarker
    → DateTime
    → Result AuthorizationError AuthorizationDecision
unfolding check_decision
revocation_denial new_id request m at =
    let reason = denial_reason m.target_type in
    check_decision (record {
      result = AuthorizationResult.deny;
      reason_code = reason;
      subject_id = request.subject_id;
      tenant_id = request.tenant_id;
      permission = request.permission;
      scope = request.scope;
      evaluated_at = at;
      id = new_id;
      valid_until = none;
      matched_membership_id = none;
      bound_role_id = none;
      matched_binding_id = none;
      matched_role_id = none;
      matched_rule_id = none;
      required_assurance_level = none;
      required_mfa = none;
      resource = request.resource;
      correlation_id = request.correlation_id;
      explanation_path =
          ExplanationStep.text (
            codes "revocation:"
            ++ (codes (target_value m.target_type) ++ (codes ":" ++ m.target_id)))
          ∷ ExplanationStep.text (codes "revocation_reason:" ++ m.reason_code)
          ∷ ExplanationStep.reason reason
          ∷ ExplanationStep.result AuthorizationResult.deny
          ∷ [];
    })
