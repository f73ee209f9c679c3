-- ===== src/Identity/Aggregate/Lifecycle.antt =====
-- The life of an Identity: its invariant, the diagram of its statuses, and what sequences of its
-- calls keep.
use Prim.Native.String.{String}
use pyiamkit.Prelude.{
  suc, ◌≡◌, refl, ◌⊎◌, Bool, true, false, Option, none, some, List, [], ◌∷◌, ◌++◌, ok, err, strip,
  strip_idem, Text, length, leb, ◌&&◌, arith,
}
use pyiamkit.Shared.{DateTime, is_utc, is_utc_or_none, MetaValue, run, run-keep}
use pyiamkit.Identity.Values.{
  IdentityStatus, IdentityEventType, value_error, invalid_identity_transition, identity_activated,
  identity_suspended, identity_reactivated, identity_disabled, identity_archived,
}
use pyiamkit.Identity.Aggregate.{
  Identity, IdentityArgs, IdentityResult, event, init, rehydrate, validate_profile, activate,
  suspend, reactivate, disable, archive, reason_entries, ProfileUpdate, update_user_profile,
  link_external_identity, unlink_external_identity, is_active,
}

-- The five methods that change the status.
pub data StatusCall : Type 0 where
  activates suspends reactivates archives : StatusCall
  disables : Option Text → StatusCall

abbrev pub call_status : StatusCall → DateTime → Identity → IdentityResult
call_status activates = activate
call_status suspends = suspend
call_status reactivates = reactivate
call_status (disables reason) = disable reason
call_status archives = archive

-- The diagram: where each method leads from each status.
abbrev pub next_status : StatusCall → IdentityStatus → Option IdentityStatus
next_status activates IdentityStatus.pending = some IdentityStatus.active
next_status activates _ = none
next_status suspends IdentityStatus.active = some IdentityStatus.suspended
next_status suspends _ = none
next_status reactivates IdentityStatus.suspended = some IdentityStatus.active
next_status reactivates _ = none
next_status (disables reason) IdentityStatus.active = some IdentityStatus.disabled
next_status (disables reason) IdentityStatus.suspended = some IdentityStatus.disabled
next_status (disables reason) _ = none
next_status archives IdentityStatus.disabled = some IdentityStatus.archived
next_status archives _ = none

abbrev pub event_of : StatusCall → IdentityEventType
event_of activates = identity_activated
event_of suspends = identity_suspended
event_of reactivates = identity_reactivated
event_of (disables reason) = identity_disabled
event_of archives = identity_archived

abbrev pub entries_of : StatusCall → List (String × MetaValue)
entries_of (disables reason) = reason_entries reason
entries_of _ = []

-- The moments of the statuses that a call writes; a reactivated Identity forgets its suspension.
abbrev pub stamped : StatusCall → DateTime → IdentityArgs → IdentityArgs
stamped activates at i = record i { activated_at = some at }
stamped suspends at i = record i { suspended_at = some at }
stamped reactivates at i = record i { suspended_at = none }
stamped (disables reason) at i = record i { disabled_at = some at }
stamped archives at i = record i { archived_at = some at }

abbrev pub moved : IdentityStatus → DateTime → IdentityArgs → IdentityArgs
moved s at i = record i { status = s; version = suc i.version; updated_at = at }

-- What a call at `at` on `i` does, by how it ends.
abbrev pub Outcome : StatusCall → DateTime → Identity → IdentityResult → Type 0
Outcome c at i (ok i') =
    (is_utc at ≡ true)
    × (next_status c i.status ≡ some i'.status)
    × (i'.args ≡ stamped c at (moved i'.status at i.args))
    × (i'.pending_events ≡ i.pending_events ++ event (event_of c) at (entries_of c) i.args ∷ [])
Outcome c at i (err e) =
    ((next_status c i.status ≡ none) × (e ≡ invalid_identity_transition i.status))
    ⊎ ((is_utc at ≡ false) × (e ≡ value_error))

-- Every method that changes the status of an Identity follows the diagram: it succeeds exactly
-- where the diagram has an arrow and the moment is in UTC; then it moves the status along the arrow,
-- writes the moment of the new status, adds one to the version, appends the method's event, with
-- the reason of a `disable`, and changes nothing else.
pub identity-Outcome :
    (c : StatusCall) (at : DateTime) (i : Identity) → Outcome c at i (call_status c at i)
unfolding activate suspend reactivate disable archive
identity-Outcome activates at i = ground arith
identity-Outcome suspends at i = ground arith
identity-Outcome reactivates at i = ground arith
identity-Outcome (disables none) at i = ground arith
identity-Outcome (disables (some reason)) at i = ground arith
identity-Outcome archives at i = ground arith

-- All eight methods that change an Identity.
pub data Call : Type 0 where
  status_call : StatusCall → Call
  updates : ProfileUpdate → Call
  links unlinks : Text → Text → Call

abbrev pub call : Call → DateTime → Identity → IdentityResult
call (status_call c) = call_status c
call (updates new) = update_user_profile new
call (links provider subject) = link_external_identity provider subject
call (unlinks provider subject) = unlink_external_identity provider subject

-- What `__init__` has checked of an Identity, and what it has normalised.
pub record IsValid (i : IdentityArgs) : Type 0 where
  pub created_utc : is_utc i.created_at ≡ true
  pub updated_utc : is_utc i.updated_at ≡ true
  pub activated_utc : is_utc_or_none i.activated_at ≡ true
  pub suspended_utc : is_utc_or_none i.suspended_at ≡ true
  pub disabled_utc : is_utc_or_none i.disabled_at ≡ true
  pub archived_utc : is_utc_or_none i.archived_at ≡ true
  pub stripped : strip i.display_name ≡ i.display_name
  pub sized : (leb 1 (length i.display_name) && leb (length i.display_name) 255) ≡ true
  pub profile_ok : validate_profile i.type i.id i.profile ≡ ok tt

pub init-IsValid : (a : IdentityArgs) {i : Identity} → init a ≡ ok i → IsValid i.args
unfolding init
init-IsValid a h = ground (arith, strip_idem a.display_name)

pub init_rehydrates :
    (i : Identity) → IsValid i.args → init i.args ≡ ok (record i { pending_events = [] })
unfolding init
init_rehydrates i v = ground arith

pub call-IsValid :
    (c : Call) (at : DateTime) (i : Identity) {i' : Identity}
    → IsValid i.args
    → call c at i ≡ ok i'
    → IsValid i'.args
unfolding activate suspend reactivate disable archive update_user_profile link_external_identity
    unlink_external_identity validate_profile
call-IsValid (status_call activates) at i v h = ground arith
call-IsValid (status_call suspends) at i v h = ground arith
call-IsValid (status_call reactivates) at i v h = ground arith
call-IsValid (status_call (disables reason)) at i v h = ground arith
call-IsValid (status_call archives) at i v h = ground arith
call-IsValid (updates new) at i v h = ground (arith, strip_idem new.new_name)
call-IsValid (links provider subject) at i v h = ground arith
call-IsValid (unlinks provider subject) at i v h = ground arith

-- An Identity that its constructor made can be stored and loaded after any calls of its methods, at
-- any moments: `_rehydrate` accepts the arguments that they leave, its profile and its normalised
-- name among them, and gives the same Identity again, without its pending events.
pub identity-rehydrates :
    (a : IdentityArgs) {i : Identity}
    → init a ≡ ok i
    → (cs : List (DateTime × Call))
    → rehydrate (run call cs i).args ≡ ok (record (run call cs i) { pending_events = [] })
unfolding rehydrate
identity-rehydrates a {i} h cs = init_rehydrates (run call cs i) (
    run-keep call (λ (x : Identity). IsValid x.args) (λ c at x y v e. call-IsValid c at x v e) cs i
      (init-IsValid a h))

-- Disabled, or archived, of an identifier, a type and a moment of creation.
abbrev pub is_closed : IdentityStatus → Bool
is_closed IdentityStatus.disabled = true
is_closed IdentityStatus.archived = true
is_closed _ = false

abbrev SameClosed : IdentityArgs → Identity → Type 0
SameClosed a i =
    (is_closed i.status ≡ true) × (i.id ≡ a.id) × (i.type ≡ a.type) × (i.created_at ≡ a.created_at)

call-SameClosed :
    (a : IdentityArgs) (c : Call) (at : DateTime) (i : Identity) {i' : Identity}
    → SameClosed a i
    → call c at i ≡ ok i'
    → SameClosed a i'
unfolding activate suspend reactivate disable archive update_user_profile link_external_identity
    unlink_external_identity
call-SameClosed a (status_call activates) at i v h = ground arith
call-SameClosed a (status_call suspends) at i v h = ground arith
call-SameClosed a (status_call reactivates) at i v h = ground arith
call-SameClosed a (status_call (disables reason)) at i v h = ground arith
call-SameClosed a (status_call archives) at i v h = ground arith
call-SameClosed a (updates new) at i v h = ground arith
call-SameClosed a (links provider subject) at i v h = ground arith
call-SameClosed a (unlinks provider subject) at i v h = ground arith

-- An Identity that is disabled or archived is so for good: whatever is called, at whatever moments,
-- it is never active again, and it keeps its identifier, its type and its moment of creation.
pub disabled-final :
    (i : Identity)
    → is_closed i.status ≡ true
    → (cs : List (DateTime × Call))
    → (is_closed (run call cs i).status ≡ true)
      × (is_active (run call cs i).status ≡ false)
      × ((run call cs i).id ≡ i.id)
      × ((run call cs i).type ≡ i.type)
      × ((run call cs i).created_at ≡ i.created_at)
disabled-final i h cs =
    let (s, n, t, c) =
      run-keep call (SameClosed i.args) (λ d at x y v e. call-SameClosed i.args d at x v e) cs i
        (h, refl, refl, refl) in
    (s, ground arith, n, t, c)
