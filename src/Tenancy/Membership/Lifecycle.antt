-- ===== src/Tenancy/Membership/Lifecycle.antt =====
-- The life of a Membership: its invariant, and the diagram of its statuses.
use pyiamkit.Prelude.{
  suc, ◌≡◌, refl, ◌⊎◌, true, false, Option, none, some, List, [], ◌∷◌, ◌++◌, ok, err, strip,
  strip_idem, arith,
}
use pyiamkit.Shared.{DateTime, after, run, run-keep, run_fixed, is_utc, is_utc_or_none, before_end}
use pyiamkit.Tenancy.Values.{
  MembershipStatus, TenancyEventType, value_error, invalid_membership_transition,
  membership_activated, membership_suspended, membership_reactivated, membership_expired,
  membership_revoked,
}
use pyiamkit.Tenancy.Membership.{
  Membership, MembershipArgs, MembershipResult, event, non_empty, init, rehydrate, activate,
  suspend, reactivate, expire, revoke, active_at, is_open,
}

-- What `__init__` has checked of a Membership: its moments are in UTC, its end is after its start,
-- and its source is a stripped text that is not empty.
pub record IsValid (m : MembershipArgs) : Type 0 where
  pub created_utc : is_utc m.created_at ≡ true
  pub updated_utc : is_utc m.updated_at ≡ true
  pub from_utc : is_utc m.valid_from ≡ true
  pub until_utc : is_utc_or_none m.valid_until ≡ true
  pub ordered : before_end m.valid_from m.valid_until ≡ true
  pub stripped : strip m.source ≡ m.source
  pub has_source : non_empty m.source ≡ true

-- The five methods that change a Membership.
pub data Call : Type 0 where
  activates suspends reactivates expires revokes : Call

abbrev pub call : Call → DateTime → Membership → MembershipResult
call Call.activates = activate
call Call.suspends = suspend
call Call.reactivates = reactivate
call Call.expires = expire
call Call.revokes = revoke

-- The diagram: where each method leads from each status.
abbrev pub next_status : Call → MembershipStatus → Option MembershipStatus
next_status Call.activates MembershipStatus.pending = some MembershipStatus.active
next_status Call.activates _ = none
next_status Call.suspends MembershipStatus.active = some MembershipStatus.suspended
next_status Call.suspends _ = none
next_status Call.reactivates MembershipStatus.suspended = some MembershipStatus.active
next_status Call.reactivates _ = none
next_status Call.expires MembershipStatus.expired = none
next_status Call.expires MembershipStatus.revoked = none
next_status Call.expires _ = some MembershipStatus.expired
next_status Call.revokes MembershipStatus.expired = none
next_status Call.revokes MembershipStatus.revoked = none
next_status Call.revokes _ = some MembershipStatus.revoked

abbrev pub event_of : Call → TenancyEventType
event_of Call.activates = membership_activated
event_of Call.suspends = membership_suspended
event_of Call.reactivates = membership_reactivated
event_of Call.expires = membership_expired
event_of Call.revokes = membership_revoked

abbrev pub moved : MembershipStatus → DateTime → MembershipArgs → MembershipArgs
moved s at m = record m { status = s; version = suc m.version; updated_at = at }

-- What a call at `at` on `m` does, by how it ends.
abbrev pub Outcome : Call → DateTime → Membership → MembershipResult → Type 0
Outcome c at m (ok m') =
    (is_utc at ≡ true)
    × (next_status c m.status ≡ some m'.status)
    × (m'.args ≡ moved m'.status at m.args)
    × (m'.pending_events ≡ m.pending_events ++ event (event_of c) at m.args ∷ [])
Outcome c at m (err e) =
    ((next_status c m.status ≡ none) × (e ≡ invalid_membership_transition m.status))
    ⊎ ((is_utc at ≡ false) × (e ≡ value_error))

-- Every method of a Membership follows the diagram: it succeeds exactly where the diagram has an
-- arrow and the moment is in UTC; then it moves the status along the arrow, adds one to the
-- version, stamps the moment, appends the method's event and changes nothing else.
pub membership-Outcome : (c : Call) (at : DateTime) (m : Membership) → Outcome c at m (call c at m)
unfolding activate suspend reactivate expire revoke
membership-Outcome Call.activates at m = ground arith
membership-Outcome Call.suspends at m = ground arith
membership-Outcome Call.reactivates at m = ground arith
membership-Outcome Call.expires at m = ground arith
membership-Outcome Call.revokes at m = ground arith

pub init-IsValid : (a : MembershipArgs) {m : Membership} → init a ≡ ok m → IsValid m.args
unfolding init
init-IsValid a h = ground (arith, strip_idem a.source)

pub init_rehydrates :
    (m : Membership) → IsValid m.args → init m.args ≡ ok (record m { pending_events = [] })
unfolding init
init_rehydrates m v = ground arith

pub call-IsValid :
    (c : Call) (at : DateTime) (m : Membership) {m' : Membership}
    → IsValid m.args
    → call c at m ≡ ok m'
    → IsValid m'.args
unfolding activate suspend reactivate expire revoke
call-IsValid Call.activates at m v h = ground arith
call-IsValid Call.suspends at m v h = ground arith
call-IsValid Call.reactivates at m v h = ground arith
call-IsValid Call.expires at m v h = ground arith
call-IsValid Call.revokes at m v h = ground arith

pub run-IsValid :
    (cs : List (DateTime × Call)) (m : Membership) → IsValid m.args → IsValid (run call cs m).args
run-IsValid cs m v =
    run-keep call (λ (x : Membership). IsValid x.args) (λ c at x y p e. call-IsValid c at x p e) cs
      m v

-- A Membership that its constructor made can be stored and loaded after any calls: `_rehydrate`
-- takes the arguments that the calls leave and gives the same Membership again, without its
-- pending events.
pub membership-rehydrates :
    (a : MembershipArgs) {m : Membership}
    → init a ≡ ok m
    → (cs : List (DateTime × Call))
    → rehydrate (run call cs m).args ≡ ok (record (run call cs m) { pending_events = [] })
unfolding rehydrate
membership-rehydrates a {m} h cs =
    init_rehydrates (run call cs m) (run-IsValid cs m (init-IsValid a h))

closed_after :
    (c : Call) (at : DateTime) (m : Membership)
    → is_open m.status ≡ false
    → after m (call c at m) ≡ m
unfolding activate suspend reactivate expire revoke
closed_after Call.activates at m h = ground arith
closed_after Call.suspends at m h = ground arith
closed_after Call.reactivates at m h = ground arith
closed_after Call.expires at m h = ground arith
closed_after Call.revokes at m h = ground arith

-- A Membership that `revoke` has revoked stays as it is whatever is called, and is active at no
-- moment.
pub revoke-final :
    (m : Membership) (at : DateTime) {m' : Membership}
    → revoke at m ≡ ok m'
    → (cs : List (DateTime × Call)) (t : DateTime)
    → (run call cs m' ≡ m') × (active_at t (run call cs m').args ≡ false)
unfolding revoke
revoke-final m at {m'} h cs t =
    let closed : is_open m'.status ≡ false = ground arith in
    rw (run_fixed call m' (λ c at. closed_after c at m' closed) cs) (refl, ground arith)
