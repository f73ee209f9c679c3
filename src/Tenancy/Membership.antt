-- ===== src/Tenancy/Membership.antt =====
-- src/pyiamkit/tenancy/domain/membership.py: the Membership aggregate. A method returns the changed
-- aggregate or raises; every check stands before the first write, so a raise leaves it as it was.
pub mod Lifecycle
use pyiamkit.Prelude.{
  ℕ, suc, Bool, true, false, ◌&&◌, Option, none, some, List, [], ◌∷◌, ◌++◌, Result, ok, ◌>>=◌, ◌>>◌,
  guard, Text, strip,
}
use pyiamkit.Shared.{
  DateTime, DomainEvent, MetaValue, require_utc, require_utc_or_none, before_end, up_to,
}
use pyiamkit.Tenancy.Values.{
  MembershipStatus, TenancyEventType, TenancyError, value_error, invalid_membership,
  invalid_membership_transition, membership_created, membership_activated, membership_suspended,
  membership_reactivated, membership_expired, membership_revoked,
}

-- The keyword arguments of `__init__`.
pub record MembershipArgs : Type 0 where
  pub id : ℕ
  pub version : ℕ
  pub identity_id : ℕ
  pub tenant_id : ℕ
  pub organization_id : Option ℕ
  pub status : MembershipStatus
  pub source : Text
  pub created_at : DateTime
  pub updated_at : DateTime
  pub valid_from : DateTime
  pub valid_until : Option DateTime

pub record Membership : Type 0 where
  pub args : MembershipArgs
  pub open args use *
  pub pending_events : List (DomainEvent TenancyEventType)

abbrev pub MembershipResult : Type 0
MembershipResult = Result TenancyError Membership

abbrev pub event : TenancyEventType → DateTime → MembershipArgs → DomainEvent TenancyEventType
event kind at m = record {
  event_type = kind;
  occurred_at = at;
  metadata =
      ("membership_id", MetaValue.id m.id)
      ∷ ("identity_id", MetaValue.id m.identity_id)
      ∷ ("tenant_id", MetaValue.id m.tenant_id)
      ∷ [];
}

abbrev pub non_empty : Text → Bool
non_empty [] = false
non_empty (_ ∷ _) = true

-- `__init__`.
unfoldable pub init : MembershipArgs → MembershipResult
init m = do
  require_utc value_error m.created_at
  require_utc value_error m.updated_at
  require_utc value_error m.valid_from
  require_utc_or_none value_error m.valid_until
  guard (before_end m.valid_from m.valid_until) invalid_membership
  guard (non_empty (strip m.source)) invalid_membership
  ok (record { args = record m { source = strip m.source }; pending_events = [] })

unfoldable pub rehydrate : MembershipArgs → MembershipResult
unfolding init
rehydrate = init

-- `valid_from or created_at`.
abbrev or_created : Option DateTime → DateTime → DateTime
or_created none created = created
or_created (some t) created = t

-- `MembershipId.new()` is the argument `new_id`.
unfoldable pub create :
    ℕ → ℕ → ℕ → DateTime → Option ℕ → Option DateTime → Option DateTime → Text → MembershipResult
unfolding init
create new_id identity tenant created organization from until source = do
  m ← init (record {
    id = new_id;
    version = 0;
    identity_id = identity;
    tenant_id = tenant;
    organization_id = organization;
    status = MembershipStatus.pending;
    source = source;
    created_at = created;
    updated_at = created;
    valid_from = or_created from created;
    valid_until = until;
  })
  ok (record m {
    pending_events = m.pending_events ++ event membership_created created m.args ∷ [];
  })

unfoldable pub set_status :
    MembershipStatus → DateTime → TenancyEventType → Membership → MembershipResult
set_status status at kind m = do
  require_utc value_error at
  let args = record (m.args) { status = status; version = suc m.version; updated_at = at }
  ok (record { args = args; pending_events = m.pending_events ++ event kind at args ∷ [] })

abbrev pub is_pending : MembershipStatus → Bool
is_pending s = elim s [ MembershipStatus.pending ↦ true | _ ↦ false ]

abbrev pub is_active_status : MembershipStatus → Bool
is_active_status s = elim s [ MembershipStatus.active ↦ true | _ ↦ false ]

abbrev pub is_suspended : MembershipStatus → Bool
is_suspended s = elim s [ MembershipStatus.suspended ↦ true | _ ↦ false ]

-- `self.status in {PENDING, ACTIVE, SUSPENDED}`.
abbrev pub is_open : MembershipStatus → Bool
is_open s = elim s [
  | MembershipStatus.expired ↦ false
  | MembershipStatus.revoked ↦ false
  | _ ↦ true
]

-- `_transition`, whose `self.status is not expected` is the test that it takes.
unfoldable pub transition :
    (MembershipStatus → Bool)
    → MembershipStatus
    → DateTime
    → TenancyEventType
    → Membership
    → MembershipResult
unfolding set_status
transition expected target at kind m = do
  guard (expected m.status) (invalid_membership_transition m.status)
  set_status target at kind m

unfoldable pub activate : DateTime → Membership → MembershipResult
unfolding transition
activate at = transition is_pending MembershipStatus.active at membership_activated

unfoldable pub suspend : DateTime → Membership → MembershipResult
unfolding transition
suspend at = transition is_active_status MembershipStatus.suspended at membership_suspended

unfoldable pub reactivate : DateTime → Membership → MembershipResult
unfolding transition
reactivate at = transition is_suspended MembershipStatus.active at membership_reactivated

unfoldable pub expire : DateTime → Membership → MembershipResult
unfolding set_status
expire at m = do
  guard (is_open m.status) (invalid_membership_transition m.status)
  set_status MembershipStatus.expired at membership_expired m

unfoldable pub revoke : DateTime → Membership → MembershipResult
unfolding set_status
revoke at m = do
  guard (is_open m.status) (invalid_membership_transition m.status)
  set_status MembershipStatus.revoked at membership_revoked m

-- The value of `is_active(at=at)` for a moment `at` in UTC.
abbrev pub active_at : DateTime → MembershipArgs → Bool
active_at at m = is_active_status m.status && up_to m.valid_from at && before_end at m.valid_until

unfoldable pub is_active : DateTime → Membership → Result TenancyError Bool
is_active at m = do require_utc value_error at; ok (active_at at m.args)

-- `pull_events`: the events, and the aggregate without them.
unfoldable pub pull_events : Membership → List (DomainEvent TenancyEventType) × Membership
pull_events m = (m.pending_events, record m { pending_events = [] })
