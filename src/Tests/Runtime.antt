-- ===== src/Tests/Runtime.antt =====
-- The runtime answers from its cache, and an event that is published makes the answer stale.
use pyiamkit.Prelude.{ℕ, ◌≡◌, refl, false, none, some, [], ◌∷◌, ok, Text, All, arith}
use pyiamkit.Authorization.Decisions.{AuthorizationDecision}
use pyiamkit.Authorization.Engine.Calls.{allow_decision}
use pyiamkit.Operations.State.{SecurityStateStamp, new_store, stamp_for}
use pyiamkit.Operations.Cache.{
  AuthorizationCacheEntry, Entries, from_decision, find_entry, delete, get,
}
use pyiamkit.Operations.Mutations.Uncached.{publish-get}
use pyiamkit.Operations.Checks.{Registry, Reads, Settings, RuntimeState}
use pyiamkit.Operations.Runtime.{authorize}
use pyiamkit.Operations.Runtime.Bounded.{IsBounded, authorize-IsBounded}
use pyiamkit.Tests.Data.{utc_at, noon, request, ports, grant, taking}
use pyiamkit.Tests.Operations.{
  readers, suspension, sink, sink_after, suspension-published, suspension-affects,
}

abbrev key : Text
key = b'k' ∷ []

abbrev stamp : SecurityStateStamp
stamp = stamp_for 5 7 new_store

abbrev entry : AuthorizationCacheEntry
entry = record {
  key = key;
  decision = from_decision (allow_decision 9 noon request grant);
  state_stamp = stamp;
  cached_at = noon;
  expires_at = utc_at 120;
}

abbrev entries : Entries
entries = (key, entry) ∷ []

entry_found : find_entry key entries ≡ some entry
unfolding find_entry
entry_found = refl

publish-get_example :
    get key (stamp_for 5 7 sink_after.store) (utc_at 110) entries ≡ ok (none, delete key entries)
publish-get_example =
    publish-get readers (suspension ∷ []) sink sink_after 5 7 key (utc_at 110) entries entry
      suspension-published suspension-affects entry_found refl refl

abbrev nothing_revoked : Registry
nothing_revoked type target = ok none

abbrev quiet : ℕ → Reads
quiet i = record {
  now = utc_at 110;
  stamp_before = stamp;
  registry_before = nothing_revoked;
  stamp_hit = stamp;
  registry_hit = nothing_revoked;
  ports = ports;
  engine_now = utc_at 110;
  engine_id = 91;
  stamp_after = stamp;
  registry_after = nothing_revoked;
  new_id = 92;
}

abbrev settings : Settings
settings = record { cache_ttl = 30; max_state_retries = 1; cache_denials = false; audit = taking }

abbrev start : RuntimeState
start = record { entries = entries; log = [] }

entry-IsBounded : IsBounded 30 (key, entry)
unfolding from_decision allow_decision
entry-IsBounded = record {
  allows = refl;
  later = refl;
  within = omega arith;
  ends = λ u q. ground arith;
}

authorize-IsBounded_example :
    All (IsBounded 30) (authorize settings key request quiet start).1.entries
authorize-IsBounded_example =
    authorize-IsBounded settings key request quiet start (entry-IsBounded, tt)

abbrev answer : AuthorizationDecision
answer = record (allow_decision 9 noon request grant) { id = 92; evaluated_at = utc_at 110 }
