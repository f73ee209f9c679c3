-- ===== src/Authentication/Service/Revocation.antt =====
-- What `revoke_all_sessions` leaves of an identity's sessions.
use pyiamkit.Prelude.{
  ℕ, ◌≡◌, true, Option, some, List, ok, In, values, filter, In-filter, filter-In, ◌↔◌,
  strip_or_none, Text, ◌==◌, arith,
}
use pyiamkit.Shared.{DateTime, is_utc, up_to}
use pyiamkit.Shared.Stores.Laws.{IsStore}
use pyiamkit.Shared.Stores.Selection.{copy_matching-exact, filter_result-filter}
use pyiamkit.Authentication.Values.{SessionStatus, session_revoked}
use pyiamkit.Authentication.Session.{Session, active_at, is_active, is_active_status, changed}
use pyiamkit.Authentication.Session.Storage.{IsValid}
use pyiamkit.Authentication.Memory.Sessions.{
  Items, sessions, find_for_identity, find_active_for_identity,
}

is_active-eq :
    (at : DateTime) (s : Session) → is_utc at ≡ true → is_active at s ≡ ok (active_at at s.args)
unfolding is_active
is_active-eq at s u = ground arith

-- `find_active_for_identity` at a moment in UTC: the active sessions of the identity, all of them and
-- no others.
pub find_active-exact :
    (identity : ℕ) (at : DateTime) (items : Items)
    → IsStore sessions items
    → is_utc at ≡ true
    → (found : List Session) × (find_active_for_identity identity at items ≡ ok found)
      × ((s : Session)
          → In s found
            ↔ (In s (values items) × (s.identity_id ≡ identity) × (active_at at s.args ≡ true)))
unfolding find_active_for_identity find_for_identity
find_active-exact identity at items i u =
    let (mine, e, all) =
      copy_matching-exact sessions (λ (s : Session). s.identity_id == identity) items i in
    (
      filter (λ (s : Session). active_at at s.args) mine,
      rw e (
          filter_result-filter (is_active at) (λ (s : Session). active_at at s.args) mine
            (λ s. is_active-eq at s u)),
      λ s. (
        (λ j.
            let (k, a) = In-filter (λ (x : Session). active_at at x.args) s mine j in
            let (v, o) = (all s).0 k in (v, ground arith, a)),
        λ (v, o, a).
            filter-In (λ (x : Session). active_at at x.args) s mine ((all s).1 (v, ground arith)) a,
      ),
    )

-- What the loop needs of a session.
abbrev Ready : DateTime → Session → Type 0
Ready now s = (is_active_status s.status ≡ true) × IsValid s.args × (up_to s.updated_at now ≡ true)

-- The session as `revoke` leaves it, and its copy.
abbrev revoked : Option Text → DateTime → Session → Session
revoked reason now s =
    changed session_revoked now
      (record (s.args) {
        status = SessionStatus.revoked;
        revoked_at = some now;
        revocation_reason = strip_or_none reason;
      })
      s

-- The stored sessions of the identity that are active at `now` are in the list.
abbrev Listed : ℕ → DateTime → List Session → Items → Type 0
Listed identity now ss items =
    (e : ℕ × Session)
    → In e items
    → e.1.identity_id ≡ identity
    → active_at now e.1.args ≡ true
    → In e.1 ss
