-- ===== src/Tests/Operations.antt =====
-- Versions, markers and published events.
use pyiamkit.Prelude.{ℕ, ◌≡◌, ◌≤◌, refl, true, not, none, some, List, [], ◌∷◌, ok, err, any, strip}
use pyiamkit.Shared.{DateTime, DomainEvent, MetaValue, run, id_text}
use pyiamkit.Identity.Values.{IdentityEventType}
use pyiamkit.Operations.State.{new_store, stamp_for, stamp_beq}
use pyiamkit.Operations.State.Freshness.{
  Bump, of_identity, of_membership, after_bumps, concerns, stamp_beq-after_bumps,
}
use pyiamkit.Operations.Revocation.{
  RevocationTargetType, RevocationMarker, Markers, applies_to, get, make_marker, record_marker,
}
use pyiamkit.Operations.Revocation.Recorded.{make_and_record, ComesFrom}
use pyiamkit.Operations.Revocation.Newest.{recorded-applies_to}
use pyiamkit.Operations.Effects.{EventType, effect_of}
use pyiamkit.Operations.Metadata.{Readers, required_id}
use pyiamkit.Operations.Mutations.{SinkState, publish}
use pyiamkit.Operations.Mutations.Staleness.{affects}
use pyiamkit.Tests.Data.{noon}

abbrev bumps : List Bump
bumps = of_membership 5 7 ∷ of_identity 6 ∷ []

stamp_beq-after_bumps_example :
    stamp_beq (stamp_for 5 7 new_store) (stamp_for 5 7 (after_bumps bumps new_store))
    ≡ not (any (concerns 5 7) bumps)
stamp_beq-after_bumps_example = stamp_beq-after_bumps bumps 5 7 new_store

abbrev marker : ℕ → RevocationMarker
marker v = record {
  target_type = RevocationTargetType.identity;
  target_id = b'5' ∷ [];
  revoked_at = noon;
  reason_code = b'r' ∷ [];
  tenant_id = none;
  expires_at = none;
  source_version = some v;
}

abbrev older : List (DateTime × RevocationMarker)
older = (noon, marker 2) ∷ []

abbrev recorded : Markers
recorded = elim (make_and_record (marker 4) noon (run make_and_record older [])) [
  | ok ms ↦ ms
  | err e ↦ []
]

marker-recorded : make_and_record (marker 4) noon (run make_and_record older []) ≡ ok recorded
unfolding make_marker record_marker strip run
marker-recorded = refl

recorded-applies_to_example :
    (x : RevocationMarker) × (get RevocationTargetType.identity
        (b'5' ∷ [])
        (run make_and_record ((noon, marker 3) ∷ []) recorded)
      ≡ ok (some x))
    × ((current : ℕ) → current ≤ 4 → applies_to current x ≡ true)
    × ComesFrom
        ((noon, marker 2) ∷ (noon, marker 4) ∷ (noon, marker 3) ∷ [])
        (RevocationTargetType.identity, strip (b'5' ∷ []))
        x
    × ((w : ℕ) × (x.source_version ≡ some w) × (4 ≤ w))
recorded-applies_to_example =
    recorded-applies_to older ((noon, marker 3) ∷ []) (marker 4) noon 4 refl refl marker-recorded

abbrev pub readers : Readers
readers = record { parse_id = λ t. none; parse_moment = λ t. none }

abbrev pub suspension : DomainEvent EventType
suspension = record {
  event_type = EventType.of_identity IdentityEventType.identity_suspended;
  occurred_at = noon;
  metadata = ("identity_id", MetaValue.id 5) ∷ [];
}

abbrev pub sink : SinkState
sink = record { store = new_store; markers = some []; published = []; invalidations = [] }

abbrev pub sink_after : SinkState
sink_after = (publish readers (suspension ∷ []) sink).1

pub suspension-published : publish readers (suspension ∷ []) sink ≡ (ok tt, sink_after)
unfolding publish make_marker strip id_text record_marker
suspension-published = refl

pub suspension-affects : any (affects readers 5 7) (suspension ∷ []) ≡ true
unfolding effect_of required_id
suspension-affects = refl
