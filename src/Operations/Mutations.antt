-- ===== src/Operations/Mutations.antt =====
-- src/pyiamkit/operations/mutations.py and invalidation.py: SecurityStateMutationEventSink, in front of
-- the in-memory store of versions and the in-memory registry. What was written before an exception
-- stays.
pub mod Staleness
pub mod Uncached
use Prim.Native.String.{String}
use pyiamkit.Prelude.{
  ℕ, Bool, true, false, Option, none, some, List, [], ◌∷◌, ◌++◌, Result, ok, err, Text, strip,
  nonempty, codes, text_beq, if◌then◌else◌,
}
use pyiamkit.Prelude.Actions.{Action, ◌>>=◌, ◌>>◌, return, lift}
use pyiamkit.Shared.{DateTime, Zone, DomainEvent, MetaValue, id_text}
use pyiamkit.Identity.Values.{IdentityEventType}
use pyiamkit.Tenancy.Values.{TenancyEventType}
use pyiamkit.Authentication.Values.{AuthenticationEventType}
use pyiamkit.Authorization.Values.{AuthorizationCatalogEventType, AuthorizationError, value_error}
use pyiamkit.Operations.State.{
  StateStore, bump_runtime_generation, bump_identity, bump_tenant, bump_membership,
  bump_subject_authorization, bump_tenant_authorization, bump_global_authorization, bump_governance,
  bump_authentication,
}
use pyiamkit.Operations.Revocation.{
  RevocationTargetType, RevocationMarker, make_marker, Markers, record_marker,
}
use pyiamkit.Operations.Effects.{
  EventType, Effect, identity_state, tenant_state, membership_state, binding_state,
  identity_authentication, role_state, global_state, governance_state, no_effect,
  authentication_state, effect_of,
}
use pyiamkit.Operations.Metadata.{
  to_utc, find_meta, Readers, required_id, optional_tenant_id, required_text, required_datetime,
}

pub data InvalidationKind : Type 0 where
  identity tenant membership authorization governance authentication : InvalidationKind

pub record InvalidationEvent : Type 0 where
  pub kind : InvalidationKind
  pub target_id : Text
  pub state_version : ℕ
  pub occurred_at : DateTime
  pub tenant_id : Option ℕ

-- The store, the registry where there is one, and what the sinks behind were given.
pub record SinkState : Type 0 where
  pub store : StateStore
  pub markers : Option Markers
  pub published : List (DomainEvent EventType)
  pub invalidations : List InvalidationEvent

abbrev pub SinkMethod : Type 0 → Type 0
SinkMethod A = Action SinkState AuthorizationError A

-- A method of the state writer.
abbrev pub advance : (StateStore → ℕ × StateStore) → SinkMethod ℕ
advance write st = let (v, s) = write st.store in (ok v, record st { store = s })

-- `_invalidation`; its identifier is left out.
abbrev pub invalidation :
    DomainEvent EventType → InvalidationKind → Text → Option ℕ → ℕ → InvalidationEvent
invalidation e kind target of_tenant version = record {
  kind = kind;
  target_id = target;
  state_version = version;
  occurred_at = to_utc e.occurred_at;
  tenant_id = of_tenant;
}

abbrev recorded : Result AuthorizationError Markers → SinkMethod (Unit {0})
recorded (ok ms) st = (ok tt, record st { markers = some ms })
recorded (err e) st = (err e, st)

abbrev record_made :
    Option Markers → Result AuthorizationError RevocationMarker → SinkMethod (Unit {0})
record_made none made st = (ok tt, st)
record_made (some ms) (ok m) st = recorded (record_marker m ms) st
record_made (some ms) (err e) st = (err e, st)

-- `_record_revocation`, of an event that revokes something.
unfoldable pub record_revocation :
    DomainEvent EventType
    → Option String
    → RevocationTargetType
    → Text
    → Option ℕ
    → Option DateTime
    → Option ℕ
    → SinkMethod (Unit {0})
record_revocation e none type target of_tenant expires version st = (ok tt, st)
record_revocation e (some name) type target of_tenant expires version st =
    record_made st.markers
      (make_marker (record {
        target_type = type;
        target_id = target;
        revoked_at = to_utc e.occurred_at;
        reason_code = codes name;
        tenant_id = of_tenant;
        expires_at = expires;
        source_version = version;
      }))
      st

module _ (readers : Readers) where
  -- The branch of a Role and the branch of governance.
  abbrev pub advance_role : Option ℕ → SinkMethod ℕ
  advance_role none = advance bump_global_authorization
  advance_role (some t) = advance (bump_tenant_authorization t)

  abbrev pub advance_governance : Option ℕ → SinkMethod ℕ
  advance_governance none = advance bump_runtime_generation
  advance_governance (some t) = advance (bump_governance t)

  abbrev tenant_text : Option ℕ → Text
  tenant_text none = codes "global"
  tenant_text (some t) = id_text t

  -- `_apply`, by the effect of the event.
  unfoldable pub apply_effect :
      Effect → DomainEvent EventType → SinkMethod (Option InvalidationEvent)
  unfolding required_id optional_tenant_id required_text required_datetime record_revocation
  apply_effect (identity_state revokes) e = do
    i ← lift (required_id readers "identity_id" e)
    v ← advance (bump_identity i)
    record_revocation e revokes RevocationTargetType.identity (id_text i) none none (some v)
    return (some (invalidation e InvalidationKind.identity (id_text i) none v))
  apply_effect identity_authentication e = do
    i ← lift (required_id readers "identity_id" e)
    v ← advance (bump_authentication i)
    return (some (invalidation e InvalidationKind.authentication (id_text i) none v))
  apply_effect (tenant_state revokes) e = do
    t ← lift (required_id readers "tenant_id" e)
    v ← advance (bump_tenant t)
    record_revocation e revokes RevocationTargetType.tenant (id_text t) (some t) none (some v)
    return (some (invalidation e InvalidationKind.tenant (id_text t) (some t) v))
  apply_effect (membership_state revokes) e = do
    i ← lift (required_id readers "identity_id" e)
    t ← lift (required_id readers "tenant_id" e)
    v ← advance (bump_membership i t)
    target ← lift (required_text readers revokes "membership_id" e)
    record_revocation e revokes RevocationTargetType.membership target (some t) none (some v)
    return (some (invalidation e InvalidationKind.membership (id_text i) (some t) v))
  apply_effect (binding_state revokes) e = do
    i ← lift (required_id readers "identity_id" e)
    t ← lift (required_id readers "tenant_id" e)
    v ← advance (bump_subject_authorization i t)
    target ← lift (required_text readers revokes "binding_id" e)
    record_revocation e revokes RevocationTargetType.role_binding target (some t) none (some v)
    return (some (invalidation e InvalidationKind.authorization (id_text i) (some t) v))
  apply_effect role_state e = do
    t ← lift (optional_tenant_id readers e)
    v ← advance_role t
    return (some (invalidation e InvalidationKind.authorization (tenant_text t) t v))
  apply_effect global_state e = do
    v ← advance bump_global_authorization
    return (some (invalidation e InvalidationKind.authorization (codes "global") none v))
  apply_effect governance_state e = do
    t ← lift (optional_tenant_id readers e)
    v ← advance_governance t
    return (some (invalidation e InvalidationKind.governance (tenant_text t) t v))
  apply_effect (authentication_state revokes) e = do
    i ← lift (required_id readers "identity_id" e)
    v ← advance (bump_authentication i)
    target ← lift (required_text readers revokes "session_id" e)
    expires ← lift (required_datetime readers revokes "expires_at" e)
    record_revocation e revokes RevocationTargetType.session target none expires none
    return (some (invalidation e InvalidationKind.authentication (id_text i) none v))
  apply_effect no_effect e = return none

  -- `_apply`.
  unfoldable pub apply_event : DomainEvent EventType → SinkMethod (Option InvalidationEvent)
  unfolding apply_effect effect_of
  apply_event e = apply_effect (effect_of e.event_type) e

  abbrev with_some : Option InvalidationEvent → List InvalidationEvent → List InvalidationEvent
  with_some none xs = xs
  with_some (some x) xs = x ∷ xs

  -- The comprehension of `publish`.
  unfoldable pub apply_all : List (DomainEvent EventType) → SinkMethod (List InvalidationEvent)
  unfolding apply_event
  apply_all [] = return []
  apply_all (e ∷ es) = do x ← apply_event e; xs ← apply_all es; return (with_some x xs)

  -- `publish`, with an invalidation publisher.
  unfoldable pub publish : List (DomainEvent EventType) → SinkMethod (Unit {0})
  unfolding apply_all
  publish events = do
    xs ← apply_all events
    λ st. (
      ok tt,
      record st { published = st.published ++ events; invalidations = st.invalidations ++ xs },
    )
