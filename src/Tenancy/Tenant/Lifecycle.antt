-- ===== src/Tenancy/Tenant/Lifecycle.antt =====
-- The life of a Tenant: its invariant, and the diagram of its statuses.
use pyiamkit.Prelude.{
  suc, ◌≡◌, ◌⊎◌, true, false, Option, none, some, List, [], ◌∷◌, ◌++◌, ok, err, strip, strip_idem,
  strip_slug, Unicode, is_slug_char, all, arith,
}
use pyiamkit.Shared.{DateTime, run, run-keep, is_utc}
use pyiamkit.Tenancy.Values.{
  TenantStatus, TenancyEventType, value_error, invalid_tenant_transition, tenant_activated,
  tenant_suspended, tenant_reactivated, tenant_disabled, tenant_archived,
}
use pyiamkit.Tenancy.Tenant.{
  Tenant, TenantArgs, TenantResult, event, sized, starts_hyphen, ends_hyphen, init, rehydrate,
  activate, suspend, reactivate, disable, archive,
}

-- What `__init__` has checked of a Tenant, and what it has normalised.
pub record IsValid (u : Unicode) (t : TenantArgs) : Type 0 where
  pub created_utc : is_utc t.created_at ≡ true
  pub updated_utc : is_utc t.updated_at ≡ true
  pub name_stripped : strip t.name ≡ t.name
  pub name_sized : sized 255 t.name ≡ true
  pub slug_lower : u.lower t.slug ≡ t.slug
  pub slug_sized : sized 63 t.slug ≡ true
  pub slug_start : starts_hyphen t.slug ≡ false
  pub slug_end : ends_hyphen t.slug ≡ false
  pub slug_chars : all (is_slug_char u) t.slug ≡ true

-- The five methods that change a Tenant.
pub data Call : Type 0 where
  activates suspends reactivates disables archives : Call

abbrev pub call : Call → DateTime → Tenant → TenantResult
call Call.activates = activate
call Call.suspends = suspend
call Call.reactivates = reactivate
call Call.disables = disable
call Call.archives = archive

-- The diagram: where each method leads from each status.
abbrev pub next_status : Call → TenantStatus → Option TenantStatus
next_status Call.activates TenantStatus.pending = some TenantStatus.active
next_status Call.activates _ = none
next_status Call.suspends TenantStatus.active = some TenantStatus.suspended
next_status Call.suspends _ = none
next_status Call.reactivates TenantStatus.suspended = some TenantStatus.active
next_status Call.reactivates _ = none
next_status Call.disables TenantStatus.active = some TenantStatus.disabled
next_status Call.disables TenantStatus.suspended = some TenantStatus.disabled
next_status Call.disables _ = none
next_status Call.archives TenantStatus.disabled = some TenantStatus.archived
next_status Call.archives _ = none

abbrev pub event_of : Call → TenancyEventType
event_of Call.activates = tenant_activated
event_of Call.suspends = tenant_suspended
event_of Call.reactivates = tenant_reactivated
event_of Call.disables = tenant_disabled
event_of Call.archives = tenant_archived

abbrev pub moved : TenantStatus → DateTime → TenantArgs → TenantArgs
moved s at t = record t { status = s; version = suc t.version; updated_at = at }

-- What a call at `at` on `t` does, by how it ends.
abbrev pub Outcome : Call → DateTime → Tenant → TenantResult → Type 0
Outcome c at t (ok t') =
    (is_utc at ≡ true)
    × (next_status c t.status ≡ some t'.status)
    × (t'.args ≡ moved t'.status at t.args)
    × (t'.pending_events ≡ t.pending_events ++ event (event_of c) at t.args ∷ [])
Outcome c at t (err e) =
    ((next_status c t.status ≡ none) × (e ≡ invalid_tenant_transition t.status))
    ⊎ ((is_utc at ≡ false) × (e ≡ value_error))

-- Every method of a Tenant follows the diagram: it succeeds exactly where the diagram has an arrow
-- and the moment is in UTC; then it moves the status along the arrow, adds one to the version,
-- stamps the moment, appends the method's event and changes nothing else.
pub tenant-Outcome : (c : Call) (at : DateTime) (t : Tenant) → Outcome c at t (call c at t)
unfolding activate suspend reactivate disable archive
tenant-Outcome Call.activates at t = ground arith
tenant-Outcome Call.suspends at t = ground arith
tenant-Outcome Call.reactivates at t = ground arith
tenant-Outcome Call.disables at t = ground arith
tenant-Outcome Call.archives at t = ground arith

pub call-IsValid :
    (u : Unicode) (c : Call) (at : DateTime) (t : Tenant) {t' : Tenant}
    → IsValid u t.args
    → call c at t ≡ ok t'
    → IsValid u t'.args
unfolding activate suspend reactivate disable archive
call-IsValid u Call.activates at t v h = ground arith
call-IsValid u Call.suspends at t v h = ground arith
call-IsValid u Call.reactivates at t v h = ground arith
call-IsValid u Call.disables at t v h = ground arith
call-IsValid u Call.archives at t v h = ground arith

module _ (u : Unicode) where
  run-IsValid :
      (cs : List (DateTime × Call)) (t : Tenant) → IsValid u t.args → IsValid u (run call cs t).args
  run-IsValid cs t v =
      run-keep call (λ (x : Tenant). IsValid u x.args) (λ c at x y p e. call-IsValid u c at x p e)
        cs t v

  pub init-IsValid : (a : TenantArgs) {t : Tenant} → init u a ≡ ok t → IsValid u t.args
  unfolding init
  init-IsValid a h = ground (arith, strip_idem a.name, u.lower_idem (strip a.slug))

  pub init_rehydrates :
      (t : Tenant) → IsValid u t.args → init u t.args ≡ ok (record t { pending_events = [] })
  unfolding init
  init_rehydrates t v = ground (arith, strip_slug u t.slug v.slug_chars)

  -- A Tenant that its constructor made can be stored and loaded after any calls: `_rehydrate`
  -- accepts the arguments that the calls leave, its normalised name and slug among them, and
  -- gives the same Tenant again, without its pending events.
  pub tenant-rehydrates :
      (a : TenantArgs) {t : Tenant}
      → init u a ≡ ok t
      → (cs : List (DateTime × Call))
      → rehydrate u (run call cs t).args ≡ ok (record (run call cs t) { pending_events = [] })
  unfolding rehydrate
  tenant-rehydrates a {t} h cs =
      init_rehydrates (run call cs t) (run-IsValid cs t (init-IsValid a h))
