-- ===== src/Operations/Mutations/Uncached.antt =====
-- A decision that was cached before a published event is not given again.
use pyiamkit.Prelude.{ℕ, ◌≡◌, refl, subst, sym, true, false, none, some, List, ok, Text, any}
use pyiamkit.Shared.{DateTime, DomainEvent, is_utc}
use pyiamkit.Operations.State.{stamp_for, stamp_beq}
use pyiamkit.Operations.Cache.{
  AuthorizationCacheEntry, Entries, find_entry, is_valid_for, delete, get,
}
use pyiamkit.Operations.Effects.{EventType}
use pyiamkit.Operations.Metadata.{Readers}
use pyiamkit.Operations.Mutations.{SinkState, publish}
use pyiamkit.Operations.Mutations.Staleness.{affects, publish-stamp}

get-stale :
    (key : Text) (i t : ℕ) (st st' : SinkState) (at : DateTime) (es : Entries)
    (e : AuthorizationCacheEntry)
    → find_entry key es ≡ some e
    → e.state_stamp ≡ stamp_for i t st.store
    → stamp_beq (stamp_for i t st.store) (stamp_for i t st'.store) ≡ false
    → is_utc at ≡ true
    → get key (stamp_for i t st'.store) at es ≡ ok (none, delete key es)
unfolding get is_valid_for
get-stale key i t st st' at es e f s b u =
    let stale : stamp_beq e.state_stamp (stamp_for i t st'.store) ≡ false =
      subst (λ x. stamp_beq x (stamp_for i t st'.store) ≡ false) (sym s) b in
    rw (f, u, stale) refl

-- When the sink has published, without an exception, events of which one names the identity, the
-- tenant or both as its kind demands, or is about them all, a decision that was cached under the
-- versions that they had before is not given again: at any moment in UTC, the cache answers with
-- nothing for its key under the versions after, and drops it.
pub publish-get :
    (readers : Readers) (events : List (DomainEvent EventType)) (st st' : SinkState) (i t : ℕ)
    (key : Text) (at : DateTime) (es : Entries) (e : AuthorizationCacheEntry)
    → publish readers events st ≡ (ok tt, st')
    → any (affects readers i t) events ≡ true
    → find_entry key es ≡ some e
    → e.state_stamp ≡ stamp_for i t st.store
    → is_utc at ≡ true
    → get key (stamp_for i t st'.store) at es ≡ ok (none, delete key es)
publish-get readers events st st' i t key at es e p a f s u =
    get-stale key i t st st' at es e f s (publish-stamp readers i t events st st' p a) u
