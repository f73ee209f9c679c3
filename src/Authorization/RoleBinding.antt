-- ===== src/Authorization/RoleBinding.antt =====
-- src/pyiamkit/authorization/domain/role_binding.py: the RoleBinding aggregate. A method returns the
-- changed aggregate or raises; every check stands before the first write.
pub mod Lifecycle
use pyiamkit.Prelude.{
  ℕ, suc, Bool, true, false, ◌&&◌, Option, none, some, List, [], ◌∷◌, ◌++◌, Result, ok, ◌>>=◌, ◌>>◌,
  guard, Text, strip_or_none, ◌==◌,
}
use pyiamkit.Shared.{
  DateTime, DomainEvent, MetaValue, require_utc, require_utc_or_none, before_end, up_to,
}
use pyiamkit.Tenancy.Values.{TenantScope}
use pyiamkit.Authorization.Values.{
  RoleBindingStatus, GrantSource, AuthorizationCatalogEventType, AuthorizationError, value_error,
  invalid_role_binding, invalid_role_binding_transition, role_assigned, role_binding_suspended,
  role_binding_reactivated, role_binding_revoked, role_binding_expired,
}

-- The keyword arguments of `__init__`.
pub record RoleBindingArgs : Type 0 where
  pub id : ℕ
  pub version : ℕ
  pub identity_id : ℕ
  pub role_id : ℕ
  pub tenant_id : ℕ
  pub scope : TenantScope
  pub status : RoleBindingStatus
  pub grant_source : GrantSource
  pub granted_by : Option ℕ
  pub justification : Option Text
  pub created_at : DateTime
  pub updated_at : DateTime
  pub valid_from : DateTime
  pub valid_until : Option DateTime

pub record RoleBinding : Type 0 where
  pub args : RoleBindingArgs
  pub open args use *
  pub pending_events : List (DomainEvent AuthorizationCatalogEventType)

abbrev pub BindingResult : Type 0
BindingResult = Result AuthorizationError RoleBinding

abbrev pub event :
    AuthorizationCatalogEventType
    → DateTime
    → RoleBindingArgs
    → DomainEvent AuthorizationCatalogEventType
event kind at b = record {
  event_type = kind;
  occurred_at = at;
  metadata =
      ("binding_id", MetaValue.id b.id)
      ∷ ("identity_id", MetaValue.id b.identity_id)
      ∷ ("role_id", MetaValue.id b.role_id)
      ∷ ("tenant_id", MetaValue.id b.tenant_id)
      ∷ [];
}

-- `__init__`.
unfoldable pub init : RoleBindingArgs → BindingResult
init b = do
  require_utc value_error b.created_at
  require_utc value_error b.updated_at
  require_utc value_error b.valid_from
  guard (b.scope.tenant_id == b.tenant_id) invalid_role_binding
  require_utc_or_none value_error b.valid_until
  guard (before_end b.valid_from b.valid_until) invalid_role_binding
  ok (record {
    args = record b { justification = strip_or_none b.justification };
    pending_events = [];
  })

unfoldable pub rehydrate : RoleBindingArgs → BindingResult
unfolding init
rehydrate = init

-- `RoleBindingId.new()` is the argument `new_id`.
unfoldable pub create :
    ℕ
    → ℕ
    → ℕ
    → ℕ
    → TenantScope
    → DateTime
    → Option DateTime
    → GrantSource
    → Option ℕ
    → Option Text
    → BindingResult
unfolding init
create new_id identity role tenant scope created until source granted_by justification = do
  b ← init (record {
    id = new_id;
    version = 0;
    identity_id = identity;
    role_id = role;
    tenant_id = tenant;
    scope = scope;
    status = RoleBindingStatus.active;
    grant_source = source;
    granted_by = granted_by;
    justification = justification;
    created_at = created;
    updated_at = created;
    valid_from = created;
    valid_until = until;
  })
  ok (record b { pending_events = b.pending_events ++ event role_assigned created b.args ∷ [] })

unfoldable pub set_status :
    RoleBindingStatus → DateTime → AuthorizationCatalogEventType → RoleBinding → BindingResult
set_status status at kind b = do
  require_utc value_error at
  let args = record (b.args) { status = status; version = suc b.version; updated_at = at }
  ok (record { args = args; pending_events = b.pending_events ++ event kind at args ∷ [] })

abbrev pub is_active_status : RoleBindingStatus → Bool
is_active_status s = elim s [ RoleBindingStatus.active ↦ true | _ ↦ false ]

abbrev pub is_suspended : RoleBindingStatus → Bool
is_suspended s = elim s [ RoleBindingStatus.suspended ↦ true | _ ↦ false ]

-- `self.status in {ACTIVE, SUSPENDED}`.
abbrev pub is_open : RoleBindingStatus → Bool
is_open s = elim s [
  | RoleBindingStatus.active ↦ true
  | RoleBindingStatus.suspended ↦ true
  | _ ↦ false
]

-- `_transition`, whose `self.status is not expected` is the test that it takes.
unfoldable pub transition :
    (RoleBindingStatus → Bool)
    → RoleBindingStatus
    → DateTime
    → AuthorizationCatalogEventType
    → RoleBinding
    → BindingResult
unfolding set_status
transition expected target at kind b = do
  guard (expected b.status) (invalid_role_binding_transition b.status)
  set_status target at kind b

unfoldable pub suspend : DateTime → RoleBinding → BindingResult
unfolding transition
suspend at = transition is_active_status RoleBindingStatus.suspended at role_binding_suspended

unfoldable pub reactivate : DateTime → RoleBinding → BindingResult
unfolding transition
reactivate at = transition is_suspended RoleBindingStatus.active at role_binding_reactivated

unfoldable pub revoke : DateTime → RoleBinding → BindingResult
unfolding set_status
revoke at b = do
  guard (is_open b.status) (invalid_role_binding_transition b.status)
  set_status RoleBindingStatus.revoked at role_binding_revoked b

unfoldable pub expire : DateTime → RoleBinding → BindingResult
unfolding set_status
expire at b = do
  guard (is_open b.status) (invalid_role_binding_transition b.status)
  set_status RoleBindingStatus.expired at role_binding_expired b

-- The value of `is_active(at=at)` for a moment `at` in UTC.
abbrev pub active_at : DateTime → RoleBindingArgs → Bool
active_at at b = is_active_status b.status && up_to b.valid_from at && before_end at b.valid_until

unfoldable pub is_active : DateTime → RoleBinding → Result AuthorizationError Bool
is_active at b = do require_utc value_error at; ok (active_at at b.args)

-- `pull_events`: the events, and the aggregate without them.
unfoldable pub pull_events :
    RoleBinding → List (DomainEvent AuthorizationCatalogEventType) × RoleBinding
pull_events b = (b.pending_events, record b { pending_events = [] })
