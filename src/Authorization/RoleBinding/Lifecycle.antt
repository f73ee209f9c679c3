-- ===== src/Authorization/RoleBinding/Lifecycle.antt =====
-- The life of a RoleBinding: its invariant, and the diagram of its statuses.
use pyiamkit.Prelude.{
  suc, ◌≡◌, refl, ◌⊎◌, true, false, Option, none, some, List, [], ◌∷◌, ◌++◌, ok, err, strip_or_none,
  strip_or_none_idem, arith,
}
use pyiamkit.Shared.{DateTime, after, run, run-keep, run_fixed, is_utc, is_utc_or_none, before_end}
use pyiamkit.Authorization.Values.{
  RoleBindingStatus, AuthorizationCatalogEventType, value_error, invalid_role_binding_transition,
  role_binding_suspended, role_binding_reactivated, role_binding_revoked, role_binding_expired,
}
use pyiamkit.Authorization.RoleBinding.{
  RoleBinding, RoleBindingArgs, BindingResult, event, init, rehydrate, suspend, reactivate, expire,
  revoke, active_at, is_open,
}

-- What `__init__` has checked of a RoleBinding: its moments are in UTC, its scope lies in its
-- tenant, its end is after its start, and its justification is normalised.
pub record IsValid (b : RoleBindingArgs) : Type 0 where
  pub created_utc : is_utc b.created_at ≡ true
  pub updated_utc : is_utc b.updated_at ≡ true
  pub from_utc : is_utc b.valid_from ≡ true
  pub until_utc : is_utc_or_none b.valid_until ≡ true
  pub scoped : b.scope.tenant_id ≡ b.tenant_id
  pub ordered : before_end b.valid_from b.valid_until ≡ true
  pub normalized : strip_or_none b.justification ≡ b.justification

-- The four methods that change a RoleBinding.
pub data Call : Type 0 where
  suspends reactivates revokes expires : Call

abbrev pub call : Call → DateTime → RoleBinding → BindingResult
call Call.suspends = suspend
call Call.reactivates = reactivate
call Call.revokes = revoke
call Call.expires = expire

-- The diagram: where each method leads from each status.
abbrev pub next_status : Call → RoleBindingStatus → Option RoleBindingStatus
next_status Call.suspends RoleBindingStatus.active = some RoleBindingStatus.suspended
next_status Call.suspends _ = none
next_status Call.reactivates RoleBindingStatus.suspended = some RoleBindingStatus.active
next_status Call.reactivates _ = none
next_status Call.revokes RoleBindingStatus.revoked = none
next_status Call.revokes RoleBindingStatus.expired = none
next_status Call.revokes _ = some RoleBindingStatus.revoked
next_status Call.expires RoleBindingStatus.revoked = none
next_status Call.expires RoleBindingStatus.expired = none
next_status Call.expires _ = some RoleBindingStatus.expired

abbrev pub event_of : Call → AuthorizationCatalogEventType
event_of Call.suspends = role_binding_suspended
event_of Call.reactivates = role_binding_reactivated
event_of Call.revokes = role_binding_revoked
event_of Call.expires = role_binding_expired

abbrev pub moved : RoleBindingStatus → DateTime → RoleBindingArgs → RoleBindingArgs
moved s at b = record b { status = s; version = suc b.version; updated_at = at }

-- What a call at `at` on `b` does, by how it ends.
abbrev pub Outcome : Call → DateTime → RoleBinding → BindingResult → Type 0
Outcome c at b (ok b') =
    (is_utc at ≡ true)
    × (next_status c b.status ≡ some b'.status)
    × (b'.args ≡ moved b'.status at b.args)
    × (b'.pending_events ≡ b.pending_events ++ event (event_of c) at b.args ∷ [])
Outcome c at b (err e) =
    ((next_status c b.status ≡ none) × (e ≡ invalid_role_binding_transition b.status))
    ⊎ ((is_utc at ≡ false) × (e ≡ value_error))

-- Every method of a RoleBinding follows the diagram: it succeeds exactly where the diagram has an
-- arrow and the moment is in UTC; then it moves the status along the arrow, adds one to the
-- version, stamps the moment, appends the method's event and changes nothing else.
pub binding-Outcome : (c : Call) (at : DateTime) (b : RoleBinding) → Outcome c at b (call c at b)
unfolding suspend reactivate expire revoke
binding-Outcome Call.suspends at b = ground arith
binding-Outcome Call.reactivates at b = ground arith
binding-Outcome Call.revokes at b = ground arith
binding-Outcome Call.expires at b = ground arith

pub init-IsValid : (a : RoleBindingArgs) {b : RoleBinding} → init a ≡ ok b → IsValid b.args
unfolding init
init-IsValid a h = ground (arith, strip_or_none_idem a.justification)

pub init_rehydrates :
    (b : RoleBinding) → IsValid b.args → init b.args ≡ ok (record b { pending_events = [] })
unfolding init
init_rehydrates b v = ground arith

pub call-IsValid :
    (c : Call) (at : DateTime) (b : RoleBinding) {b' : RoleBinding}
    → IsValid b.args
    → call c at b ≡ ok b'
    → IsValid b'.args
unfolding suspend reactivate expire revoke
call-IsValid Call.suspends at b v h = ground arith
call-IsValid Call.reactivates at b v h = ground arith
call-IsValid Call.revokes at b v h = ground arith
call-IsValid Call.expires at b v h = ground arith

run-IsValid :
    (cs : List (DateTime × Call)) (b : RoleBinding) → IsValid b.args → IsValid (run call cs b).args
run-IsValid cs b v =
    run-keep call (λ (x : RoleBinding). IsValid x.args) (λ c at x y p e. call-IsValid c at x p e) cs
      b v

-- Whatever methods are called, at whatever moments, a RoleBinding that its constructor made can
-- be stored and loaded: `_rehydrate` takes the arguments that the calls leave and gives the same
-- RoleBinding again, without its pending events.
pub binding-rehydrates :
    (a : RoleBindingArgs) {b : RoleBinding}
    → init a ≡ ok b
    → (cs : List (DateTime × Call))
    → rehydrate (run call cs b).args ≡ ok (record (run call cs b) { pending_events = [] })
unfolding rehydrate
binding-rehydrates a {b} h cs =
    init_rehydrates (run call cs b) (run-IsValid cs b (init-IsValid a h))

closed_after :
    (c : Call) (at : DateTime) (b : RoleBinding)
    → is_open b.status ≡ false
    → after b (call c at b) ≡ b
unfolding suspend reactivate expire revoke
closed_after Call.suspends at b h = ground arith
closed_after Call.reactivates at b h = ground arith
closed_after Call.revokes at b h = ground arith
closed_after Call.expires at b h = ground arith

-- A revoked or expired RoleBinding stays as it is whatever is called, and is active at no moment.
pub closed-final :
    (b : RoleBinding)
    → is_open b.status ≡ false
    → (cs : List (DateTime × Call)) (t : DateTime)
    → (run call cs b ≡ b) × (active_at t (run call cs b).args ≡ false)
closed-final b h cs t =
    rw (run_fixed call b (λ c at. closed_after c at b h) cs) (refl, ground arith)
