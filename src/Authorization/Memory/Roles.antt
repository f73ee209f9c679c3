-- ===== src/Authorization/Memory/Roles.antt =====
-- src/pyiamkit/authorization/adapters/memory.py: InMemoryRoleRepository, and what it promises to the
-- services that use it.
use pyiamkit.Prelude.{
  ℕ, ◌≡◌, refl, ap, ◌∙◌, Bool, true, false, ◌&&◌, Option, none, some, List, [], Result, ok, err,
  ◌==◌, lookup, insert, Text, strip, text_beq, arith,
}
use pyiamkit.Shared.Stores.{Copier, get_copy, save_copy, copy_first}
use pyiamkit.Shared.Stores.Laws.{
  IsStore, empty-IsStore, get_copy-lookup, get_copy-In, save_copy-get_copy,
}
use pyiamkit.Authorization.Values.{AuthorizationError}
use pyiamkit.Authorization.Role.{Role, RoleResult, init, rehydrate}
use pyiamkit.Authorization.Role.Laws.{init_idem}
use pyiamkit.Authorization.Hierarchy.{RoleRepository}
use pyiamkit.Authorization.Hierarchy.Service.{RolePort}

-- `_items`.
abbrev pub Items : Type 0
Items = List (ℕ × Role)

-- `_copy`.
unfoldable pub copy : Role → RoleResult
copy r = rehydrate r.args

pub copy_idem : (a b : Role) → copy a ≡ ok b → copy b ≡ ok b
unfolding copy rehydrate
copy_idem a b h = init_idem a.args h

pub copy_id : (a b : Role) → copy a ≡ ok b → b.id ≡ a.id
unfolding copy rehydrate init
copy_id a b h = ground arith

abbrev pub roles : Copier AuthorizationError Role
roles = record { id = λ (r : Role). r.id; copy = copy; copy_idem = copy_idem; copy_id = copy_id }

unfoldable pub get : ℕ → Items → Result AuthorizationError (Option Role)
unfolding get_copy
get n items = get_copy copy n items

unfoldable pub save : Role → Items → Result AuthorizationError Items
unfolding save_copy
save r items = save_copy roles r items

abbrev same_tenant : Option ℕ → Option ℕ → Bool
same_tenant none none = true
same_tenant (some a) (some b) = a == b
same_tenant _ _ = false

-- `find_by_name`; `casefold` is Python's.
unfoldable pub find_by_name :
    (Text → Text) → Option ℕ → Text → Items → Result AuthorizationError (Option Role)
unfolding copy_first
find_by_name casefold tenant name items =
    copy_first copy
      (λ (r : Role).
        same_tenant r.tenant_id tenant && text_beq (casefold r.name) (casefold (strip name)))
      items

-- A dictionary that only `save` has written.
pub record Store : Type 0 where
  pub items : Items
  pub holds : IsStore roles items

pub empty : Store
empty = record { items = []; holds = empty-IsStore roles }

-- Of such a dictionary `get` never raises.
pub get-lookup : (n : ℕ) (s : Store) → get n s.items ≡ ok (lookup n s.items)
unfolding get
get-lookup n s = get_copy-lookup roles n s.items s.holds

pub found_id : (s : Store) (n : ℕ) (r : Role) → lookup n s.items ≡ some r → r.id ≡ n
found_id s n r e =
    let (_, same, _) =
      get_copy-In roles n s.items {a = r} s.holds
        (get_copy-lookup roles n s.items s.holds ∙ ap ok e) in
    same

-- What `get` answers.
abbrev pub repository : Store → RoleRepository
repository s = record { get = λ n. lookup n s.items; get_id = found_id s }

pub save-IsStore :
    (r : Role) (s : Store) {items : Items} → save r s.items ≡ ok items → IsStore roles items
unfolding save
save-IsStore r s h = let (_, _, i, _, _, _) = save_copy-get_copy roles r s.items s.holds h in i

abbrev checked :
    (r : Role) (s : Store) (out : Result AuthorizationError Items)
    → save r s.items ≡ out
    → Result AuthorizationError Store
checked r s (ok items) h = ok (record { items = items; holds = save-IsStore r s h })
checked r s (err e) h = err e

-- `save`, with the proof that the dictionary is still one.
unfoldable pub save_role : Role → Store → Result AuthorizationError Store
save_role r s = checked r s (save r s.items) refl

save_role-items :
    (r : Role) (s : Store) {s' : Store} → save_role r s ≡ ok s' → save r s.items ≡ ok s'.items
unfolding save_role
save_role-items r s {s'} h = out (save r s.items) refl h
  where
    items_or : Result AuthorizationError Store → Items
    items_or (ok x) = x.items
    items_or (err _) = []

    out :
        (o : Result AuthorizationError Items) (e : save r s.items ≡ o)
        → checked r s o e ≡ ok s'
        → save r s.items ≡ ok s'.items
    out (ok items) e f = let same : items ≡ s'.items = ap (λ x. (items_or x)) f in e ∙ ap ok same
    out (err x) e f = absurd (ground arith)

-- What is saved is found under its identifier, as its copy, and nothing else is changed.
pub save_role-get :
    (r : Role) (s : Store) {s' : Store}
    → save_role r s ≡ ok s'
    → (b : Role) × (rehydrate r.args ≡ ok b)
      × (lookup r.id s'.items ≡ some b)
      × ((n : ℕ) → n == r.id ≡ false → lookup n s'.items ≡ lookup n s.items)
unfolding save copy
save_role-get r s {s'} h =
    let done = save_role-items r s h in
    let (b, e, i, _, g, o) = save_copy-get_copy roles r s.items s.holds done in
    (
      b,
      e,
      ground (arith, get_copy-lookup roles r.id s'.items i),
      λ n d. ground (
        arith,
        o n d,
        get_copy-lookup roles n s'.items i,
        get_copy-lookup roles n s.items s.holds,
      ),
    )

save-copy :
    (r : Role) (items : Items) (b : Role)
    → rehydrate r.args ≡ ok b
    → save r items ≡ ok (insert r.id b items)
unfolding save copy
save-copy r items b h = rw h refl

-- A Role that can be copied can be saved.
pub save_role-returns :
    (r : Role) (s : Store) (b : Role)
    → rehydrate r.args ≡ ok b
    → (s' : Store) × (save_role r s ≡ ok s')
unfolding save_role
save_role-returns r s b h = out (save r s.items) refl (save-copy r s.items b h)
  where
    out :
        (o : Result AuthorizationError Items) (e : save r s.items ≡ o)
        → o ≡ ok (insert r.id b s.items)
        → (s' : Store) × (checked r s o e ≡ ok s')
    out (ok items) e f = (record { items = items; holds = save-IsStore r s e }, refl)
    out (err x) e f = absurd (ground arith)

-- A stored Role is its own copy.
pub stored_copy :
    (n : ℕ) (s : Store) (r : Role) → lookup n s.items ≡ some r → rehydrate r.args ≡ ok r
unfolding copy
stored_copy n s r e =
    let (_, _, same) =
      get_copy-In roles n s.items {a = r} s.holds
        (get_copy-lookup roles n s.items s.holds ∙ ap ok e) in
    same

-- The repository as the service on the hierarchy uses it.
abbrev pub in_memory : RolePort Store
in_memory = record {
  roles = repository;
  save = save_role;
  save-get = λ r s s' h. save_role-get r s h;
}
