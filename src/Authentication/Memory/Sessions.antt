-- ===== src/Authentication/Memory/Sessions.antt =====
-- src/pyiamkit/authentication/adapters/memory.py: InMemorySessionRepository.
use pyiamkit.Prelude.{ℕ, ◌≡◌, Option, List, Result, [], ok, ◌>>=◌, values, ◌==◌, arith}
use pyiamkit.Shared.{DateTime}
use pyiamkit.Shared.Stores.{Copier, get_copy, save_copy, sort_by_id, copy_matching, filter_result}
use pyiamkit.Authentication.Values.{AuthenticationError}
use pyiamkit.Authentication.Session.{Session, init, rehydrate, is_active}
use pyiamkit.Authentication.Session.Storage.{init-IsValid, init_rehydrates}

-- `_items`.
abbrev pub Items : Type 0
Items = List (ℕ × Session)

-- `_copy`.
unfoldable pub copy : Session → Result AuthenticationError Session
copy s = rehydrate s.args

init_no_events : (a b : Session) → init a.args ≡ ok b → b.pending_events ≡ []
unfolding init
init_no_events a b h = ground arith

pub copy_idem : (a b : Session) → copy a ≡ ok b → copy b ≡ ok b
unfolding copy rehydrate
copy_idem a b h =
    let again = init_rehydrates b (init-IsValid a.args h) in
    let bare = init_no_events a b h in ground arith

pub copy_id : (a b : Session) → copy a ≡ ok b → b.id ≡ a.id
unfolding copy rehydrate init
copy_id a b h = ground arith

abbrev pub sessions : Copier AuthenticationError Session
sessions = record {
  id = λ (s : Session). s.id;
  copy = copy;
  copy_idem = copy_idem;
  copy_id = copy_id;
}

unfoldable pub get : ℕ → Items → Result AuthenticationError (Option Session)
unfolding get_copy
get n items = get_copy copy n items

unfoldable pub save : Session → Items → Result AuthenticationError Items
unfolding save_copy
save s items = save_copy sessions s items

unfoldable pub find_for_identity : ℕ → Items → Result AuthenticationError (List Session)
unfolding copy_matching sort_by_id
find_for_identity identity items =
    copy_matching copy (λ (s : Session). s.identity_id == identity)
      (sort_by_id (λ (s : Session). s.id) (values items))

unfoldable pub find_active_for_identity :
    ℕ → DateTime → Items → Result AuthenticationError (List Session)
unfolding find_for_identity filter_result
find_active_for_identity identity at items = do
  found ← find_for_identity identity items
  filter_result (is_active at) found
