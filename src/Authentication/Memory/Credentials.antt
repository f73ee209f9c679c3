-- ===== src/Authentication/Memory/Credentials.antt =====
-- src/pyiamkit/authentication/adapters/memory.py: InMemoryCredentialRepository.
use pyiamkit.Prelude.{
  ℕ, ◌≡◌, Option, List, Result, [], ok, ◌>>=◌, values, ◌==◌, Text, strip, text_beq, arith,
}
use pyiamkit.Shared.{DateTime}
use pyiamkit.Shared.Stores.{
  Copier, get_copy, save_copy, sort_by_id, copy_matching, copy_first, filter_result,
}
use pyiamkit.Authentication.Values.{AuthenticationError}
use pyiamkit.Authentication.Credential.{Credential, init, rehydrate, is_active}
use pyiamkit.Authentication.Credential.Lifecycle.{init-IsValid, init_rehydrates}

-- `_items`.
abbrev pub Items : Type 0
Items = List (ℕ × Credential)

-- `_copy`.
unfoldable pub copy : Credential → Result AuthenticationError Credential
copy c = rehydrate c.args

init_no_events : (a b : Credential) → init a.args ≡ ok b → b.pending_events ≡ []
unfolding init
init_no_events a b h = ground arith

pub copy_idem : (a b : Credential) → copy a ≡ ok b → copy b ≡ ok b
unfolding copy rehydrate
copy_idem a b h =
    let again = init_rehydrates b (init-IsValid a.args h) in
    let bare = init_no_events a b h in ground arith

pub copy_id : (a b : Credential) → copy a ≡ ok b → b.id ≡ a.id
unfolding copy rehydrate init
copy_id a b h = ground arith

abbrev pub credentials : Copier AuthenticationError Credential
credentials = record {
  id = λ (c : Credential). c.id;
  copy = copy;
  copy_idem = copy_idem;
  copy_id = copy_id;
}

unfoldable pub get : ℕ → Items → Result AuthenticationError (Option Credential)
unfolding get_copy
get n items = get_copy copy n items

unfoldable pub save : Credential → Items → Result AuthenticationError Items
unfolding save_copy
save c items = save_copy credentials c items

unfoldable pub find_by_reference : Text → Items → Result AuthenticationError (Option Credential)
unfolding copy_first
find_by_reference reference items =
    copy_first copy (λ (c : Credential). text_beq c.reference (strip reference)) items

unfoldable pub find_for_identity : ℕ → Items → Result AuthenticationError (List Credential)
unfolding copy_matching sort_by_id
find_for_identity identity items =
    copy_matching copy (λ (c : Credential). c.identity_id == identity)
      (sort_by_id (λ (c : Credential). c.id) (values items))

unfoldable pub find_active_for_identity :
    ℕ → DateTime → Items → Result AuthenticationError (List Credential)
unfolding find_for_identity filter_result
find_active_for_identity identity at items = do
  found ← find_for_identity identity items
  filter_result (is_active at) found
