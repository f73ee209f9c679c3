-- ===== src/Authentication/Memory/Factors.antt =====
-- src/pyiamkit/authentication/adapters/memory.py: InMemoryMfaFactorRepository.
use pyiamkit.Prelude.{ℕ, ◌≡◌, Option, List, Result, [], ok, ◌>>=◌, values, filter, ◌==◌, arith}
use pyiamkit.Shared.Stores.{Copier, get_copy, save_copy, sort_by_id, copy_matching}
use pyiamkit.Authentication.Values.{AuthenticationError}
use pyiamkit.Authentication.MfaFactor.{MfaFactor, init, rehydrate, is_active}
use pyiamkit.Authentication.MfaFactor.Lifecycle.{init-IsValid, init_rehydrates}

-- `_items`.
abbrev pub Items : Type 0
Items = List (ℕ × MfaFactor)

-- `_copy`.
unfoldable pub copy : MfaFactor → Result AuthenticationError MfaFactor
copy f = rehydrate f.args

init_no_events : (a b : MfaFactor) → init a.args ≡ ok b → b.pending_events ≡ []
unfolding init
init_no_events a b h = ground arith

pub copy_idem : (a b : MfaFactor) → copy a ≡ ok b → copy b ≡ ok b
unfolding copy rehydrate
copy_idem a b h =
    let again = init_rehydrates b (init-IsValid a.args h) in
    let bare = init_no_events a b h in ground arith

pub copy_id : (a b : MfaFactor) → copy a ≡ ok b → b.id ≡ a.id
unfolding copy rehydrate init
copy_id a b h = ground arith

abbrev pub factors : Copier AuthenticationError MfaFactor
factors = record {
  id = λ (f : MfaFactor). f.id;
  copy = copy;
  copy_idem = copy_idem;
  copy_id = copy_id;
}

unfoldable pub get : ℕ → Items → Result AuthenticationError (Option MfaFactor)
unfolding get_copy
get n items = get_copy copy n items

unfoldable pub save : MfaFactor → Items → Result AuthenticationError Items
unfolding save_copy
save f items = save_copy factors f items

unfoldable pub find_for_identity : ℕ → Items → Result AuthenticationError (List MfaFactor)
unfolding copy_matching sort_by_id
find_for_identity identity items =
    copy_matching copy (λ (f : MfaFactor). f.identity_id == identity)
      (sort_by_id (λ (f : MfaFactor). f.id) (values items))

unfoldable pub find_active_for_identity : ℕ → Items → Result AuthenticationError (List MfaFactor)
unfolding find_for_identity
find_active_for_identity identity items = do
  found ← find_for_identity identity items
  ok (filter (λ (f : MfaFactor). is_active f.status) found)
