-- ===== src/Operations/Cache.antt =====
-- src/pyiamkit/operations/cache.py, and InMemoryAuthorizationCache of operations/adapters/memory.py. A
-- key is the digest of a request, which a hash function makes.
pub mod Kept
use pyiamkit.Prelude.{
  ℕ, Bool, true, false, not, ◌&&◌, Option, none, some, List, [], ◌∷◌, Result, ok, ◌>>=◌, ◌>>◌,
  guard, Text, text_beq, if◌then◌else◌,
}
use pyiamkit.Shared.{DateTime, before, require_utc}
use pyiamkit.Authentication.Values.{AssuranceLevel}
use pyiamkit.Authorization.Values.{AuthorizationError, value_error}
use pyiamkit.Authorization.Requests.{AuthorizationRequest}
use pyiamkit.Authorization.Decisions.{
  AuthorizationResult, AuthorizationReason, ExplanationStep, AuthorizationDecision, check_decision,
}
use pyiamkit.Operations.State.{SecurityStateStamp, stamp_beq}

pub record CachedAuthorizationDecision : Type 0 where
  pub result : AuthorizationResult
  pub reason_code : AuthorizationReason
  pub valid_until : Option DateTime
  pub matched_membership_id : Option ℕ
  pub bound_role_id : Option ℕ
  pub matched_binding_id : Option ℕ
  pub matched_role_id : Option ℕ
  pub matched_rule_id : Option ℕ
  pub required_assurance_level : Option AssuranceLevel
  pub required_mfa : Option Bool
  pub explanation_path : List ExplanationStep

abbrev pub cached_allowed : CachedAuthorizationDecision → Bool
cached_allowed d = elim d.result [
  | AuthorizationResult.allow ↦ true
  | AuthorizationResult.deny ↦ false
]

unfoldable pub from_decision : AuthorizationDecision → CachedAuthorizationDecision
from_decision d = record {
  result = d.result;
  reason_code = d.reason_code;
  valid_until = d.valid_until;
  matched_membership_id = d.matched_membership_id;
  bound_role_id = d.bound_role_id;
  matched_binding_id = d.matched_binding_id;
  matched_role_id = d.matched_role_id;
  matched_rule_id = d.matched_rule_id;
  required_assurance_level = d.required_assurance_level;
  required_mfa = d.required_mfa;
  explanation_path = d.explanation_path;
}

-- `AuthorizationDecisionId.new()` is the argument `new_id`. The constructor of a decision may raise.
unfoldable pub to_decision :
    ℕ
    → AuthorizationRequest
    → DateTime
    → CachedAuthorizationDecision
    → Result AuthorizationError AuthorizationDecision
unfolding check_decision
to_decision new_id request at d = do
  require_utc value_error at
  check_decision (record {
    result = d.result;
    reason_code = d.reason_code;
    subject_id = request.subject_id;
    tenant_id = request.tenant_id;
    permission = request.permission;
    scope = request.scope;
    evaluated_at = at;
    id = new_id;
    valid_until = d.valid_until;
    matched_membership_id = d.matched_membership_id;
    bound_role_id = d.bound_role_id;
    matched_binding_id = d.matched_binding_id;
    matched_role_id = d.matched_role_id;
    matched_rule_id = d.matched_rule_id;
    required_assurance_level = d.required_assurance_level;
    required_mfa = d.required_mfa;
    resource = request.resource;
    correlation_id = request.correlation_id;
    explanation_path = d.explanation_path;
  })

pub record AuthorizationCacheEntry : Type 0 where
  pub key : Text
  pub decision : CachedAuthorizationDecision
  pub state_stamp : SecurityStateStamp
  pub cached_at : DateTime
  pub expires_at : DateTime

-- `__post_init__` of an entry.
unfoldable pub make_entry :
    AuthorizationCacheEntry → Result AuthorizationError AuthorizationCacheEntry
make_entry e = do
  require_utc value_error e.cached_at
  require_utc value_error e.expires_at
  guard (before e.cached_at e.expires_at) value_error
  ok e

-- The value of `is_valid_for(state_stamp, at=at)` for a moment `at` in UTC.
abbrev pub valid_for : SecurityStateStamp → DateTime → AuthorizationCacheEntry → Bool
valid_for stamp at e = stamp_beq e.state_stamp stamp && before at e.expires_at

unfoldable pub is_valid_for :
    SecurityStateStamp → DateTime → AuthorizationCacheEntry → Result AuthorizationError Bool
is_valid_for stamp at e = do require_utc value_error at; ok (valid_for stamp at e)

-- `_entries`, by the keys of the entries.
abbrev pub Entries : Type 0
Entries = List (Text × AuthorizationCacheEntry)

unfoldable pub find_entry : Text → Entries → Option AuthorizationCacheEntry
find_entry k [] = none
find_entry k ((j, e) ∷ es) = if text_beq k j then some e else find_entry k es

unfoldable pub store_entry : Text → AuthorizationCacheEntry → Entries → Entries
store_entry k e [] = (k, e) ∷ []
store_entry k e ((j, f) ∷ es) = if text_beq k j then (k, e) ∷ es else (j, f) ∷ store_entry k e es

-- `delete`: `pop(key, None)`.
unfoldable pub delete : Text → Entries → Entries
delete k [] = []
delete k ((j, e) ∷ es) = if text_beq k j then es else (j, e) ∷ delete k es

-- What `get` answers about an entry, and the entries that it leaves.
abbrev pub answer_entry :
    Text → AuthorizationCacheEntry → Entries → Bool → Option AuthorizationCacheEntry × Entries
answer_entry k e es true = (some e, es)
answer_entry k e es false = (none, delete k es)

abbrev look_up :
    Text
    → SecurityStateStamp
    → DateTime
    → Entries
    → Option AuthorizationCacheEntry
    → Result AuthorizationError (Option AuthorizationCacheEntry × Entries)
look_up k stamp at es none = ok (none, es)
look_up k stamp at es (some e) = do valid ← is_valid_for stamp at e; ok (answer_entry k e es valid)

unfoldable pub get :
    Text
    → SecurityStateStamp
    → DateTime
    → Entries
    → Result AuthorizationError (Option AuthorizationCacheEntry × Entries)
unfolding find_entry delete is_valid_for
get k stamp at es = look_up k stamp at es (find_entry k es)

-- `put`; `cache_denials` is the setting of the cache.
unfoldable pub put : Bool → AuthorizationCacheEntry → Entries → Entries
unfolding store_entry
put cache_denials e es =
    if not cache_denials && not (cached_allowed e.decision) then es else store_entry e.key e es

-- `clear`, which AuthorizationCacheInvalidationHandler (handlers.py) calls on every event.
unfoldable pub clear : Entries → Entries
clear es = []
