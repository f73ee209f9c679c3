-- ===== src/Tenancy/Tenant.antt =====
-- src/pyiamkit/tenancy/domain/tenant.py: the Tenant aggregate. A method returns the changed
-- aggregate or raises; every check stands before the first write.
pub mod Lifecycle
use pyiamkit.Prelude.{
  ℕ, suc, Bool, true, false, not, ◌&&◌, List, [], ◌∷◌, ◌++◌, Result, ok, ◌>>=◌, ◌>>◌, guard, Text,
  strip, Unicode, is_slug_char, all, length, leb, ◌==◌,
}
use pyiamkit.Shared.{DateTime, DomainEvent, MetaValue, require_utc}
use pyiamkit.Tenancy.Values.{
  TenantStatus, TenancyEventType, TenancyError, value_error, invalid_tenant,
  invalid_tenant_transition, tenant_created, tenant_activated, tenant_suspended, tenant_reactivated,
  tenant_disabled, tenant_archived,
}

-- The keyword arguments of `__init__`.
pub record TenantArgs : Type 0 where
  pub id : ℕ
  pub version : ℕ
  pub name : Text
  pub slug : Text
  pub status : TenantStatus
  pub created_at : DateTime
  pub updated_at : DateTime
  pub metadata : List (Text × MetaValue)

pub record Tenant : Type 0 where
  pub args : TenantArgs
  pub open args use *
  pub pending_events : List (DomainEvent TenancyEventType)

abbrev pub TenantResult : Type 0
TenantResult = Result TenancyError Tenant

-- `1 <= len(value) <= limit`.
abbrev pub sized : ℕ → Text → Bool
sized limit s = leb 1 (length s) && leb (length s) limit

abbrev pub starts_hyphen : Text → Bool
starts_hyphen [] = false
starts_hyphen (c ∷ _) = c == b'-'

abbrev pub ends_hyphen : Text → Bool
ends_hyphen [] = false
ends_hyphen (c ∷ []) = c == b'-'
ends_hyphen (_ ∷ d ∷ s) = ends_hyphen (d ∷ s)

unfoldable pub normalize_name : Text → Result TenancyError Text
normalize_name value = do let name = strip value; guard (sized 255 name) invalid_tenant; ok name

abbrev pub event : TenancyEventType → DateTime → TenantArgs → DomainEvent TenancyEventType
event kind at t = record {
  event_type = kind;
  occurred_at = at;
  metadata = ("tenant_id", MetaValue.id t.id) ∷ [];
}

module _ (u : Unicode) where
  unfoldable pub normalize_slug : Text → Result TenancyError Text
  normalize_slug value = do
    let slug = u.lower (strip value)
    guard (sized 63 slug && not (starts_hyphen slug) && not (ends_hyphen slug)) invalid_tenant
    guard (all (is_slug_char u) slug) invalid_tenant
    ok slug

  -- `__init__`.
  unfoldable pub init : TenantArgs → TenantResult
  unfolding normalize_name normalize_slug
  init t = do
    require_utc value_error t.created_at
    require_utc value_error t.updated_at
    name ← normalize_name t.name
    slug ← normalize_slug t.slug
    ok (record { args = record t { name = name; slug = slug }; pending_events = [] })

  unfoldable pub rehydrate : TenantArgs → TenantResult
  unfolding init
  rehydrate = init

  -- `TenantId.new()` is the argument `new_id`.
  unfoldable pub create : ℕ → Text → Text → DateTime → List (Text × MetaValue) → TenantResult
  unfolding init
  create new_id name slug created metadata = do
    t ← init (record {
      id = new_id;
      version = 0;
      name = name;
      slug = slug;
      status = TenantStatus.pending;
      created_at = created;
      updated_at = created;
      metadata = metadata;
    })
    ok (record t { pending_events = t.pending_events ++ event tenant_created created t.args ∷ [] })

unfoldable pub set_status : TenantStatus → DateTime → TenancyEventType → Tenant → TenantResult
set_status status at kind t = do
  require_utc value_error at
  let args = record (t.args) { status = status; version = suc t.version; updated_at = at }
  ok (record { args = args; pending_events = t.pending_events ++ event kind at args ∷ [] })

abbrev pub is_pending : TenantStatus → Bool
is_pending s = elim s [ TenantStatus.pending ↦ true | _ ↦ false ]

abbrev pub is_active : TenantStatus → Bool
is_active s = elim s [ TenantStatus.active ↦ true | _ ↦ false ]

abbrev pub is_suspended : TenantStatus → Bool
is_suspended s = elim s [ TenantStatus.suspended ↦ true | _ ↦ false ]

abbrev pub is_disabled : TenantStatus → Bool
is_disabled s = elim s [ TenantStatus.disabled ↦ true | _ ↦ false ]

-- `self.status in {ACTIVE, SUSPENDED}`.
abbrev pub is_in_use : TenantStatus → Bool
is_in_use s = elim s [ TenantStatus.active ↦ true | TenantStatus.suspended ↦ true | _ ↦ false ]

-- `_transition`, whose `self.status is not expected` is the test that it takes.
unfoldable pub transition :
    (TenantStatus → Bool) → TenantStatus → DateTime → TenancyEventType → Tenant → TenantResult
unfolding set_status
transition expected target at kind t = do
  guard (expected t.status) (invalid_tenant_transition t.status)
  set_status target at kind t

unfoldable pub activate : DateTime → Tenant → TenantResult
unfolding transition
activate at = transition is_pending TenantStatus.active at tenant_activated

unfoldable pub suspend : DateTime → Tenant → TenantResult
unfolding transition
suspend at = transition is_active TenantStatus.suspended at tenant_suspended

unfoldable pub reactivate : DateTime → Tenant → TenantResult
unfolding transition
reactivate at = transition is_suspended TenantStatus.active at tenant_reactivated

unfoldable pub disable : DateTime → Tenant → TenantResult
unfolding set_status
disable at t = do
  guard (is_in_use t.status) (invalid_tenant_transition t.status)
  set_status TenantStatus.disabled at tenant_disabled t

unfoldable pub archive : DateTime → Tenant → TenantResult
unfolding transition
archive at = transition is_disabled TenantStatus.archived at tenant_archived

-- `pull_events`: the events, and the aggregate without them.
unfoldable pub pull_events : Tenant → List (DomainEvent TenancyEventType) × Tenant
pull_events t = (t.pending_events, record t { pending_events = [] })
