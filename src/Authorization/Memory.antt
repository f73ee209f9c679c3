-- ===== src/Authorization/Memory.antt =====
-- src/pyiamkit/authorization/adapters/memory.py: InMemoryRoleBindingRepository. The dictionary keeps
-- copies, which `_rehydrate` makes and which may therefore raise.
pub mod Bindings
pub mod Roles
pub mod Rules
pub mod Filled
pub mod Enforced
use pyiamkit.Prelude.{
  ℕ, Bool, ◌&&◌, Option, none, some, List, [], ◌∷◌, Result, ok, ◌>>=◌, ◌==◌, lookup, insert,
  if◌then◌else◌,
}
use pyiamkit.Shared.{DateTime}
use pyiamkit.Authorization.Values.{AuthorizationError}
use pyiamkit.Authorization.RoleBinding.{RoleBinding, BindingResult, rehydrate, is_active}

-- `_items`, by the bindings' identifiers.
abbrev pub BindingStore : Type 0
BindingStore = List (ℕ × RoleBinding)

-- `_copy`.
unfoldable pub copy : RoleBinding → BindingResult
copy b = rehydrate b.args

abbrev copied : Option RoleBinding → Result AuthorizationError (Option RoleBinding)
copied none = ok none
copied (some b) = do c ← copy b; ok (some c)

unfoldable pub get : ℕ → BindingStore → Result AuthorizationError (Option RoleBinding)
get n items = copied (lookup n items)

unfoldable pub save : RoleBinding → BindingStore → Result AuthorizationError BindingStore
save b items = do c ← copy b; ok (insert b.id c items)

abbrev pub is_of : ℕ → ℕ → RoleBinding → Bool
is_of identity tenant b = b.identity_id == identity && b.tenant_id == tenant

unfoldable pub find_for_subject :
    ℕ → ℕ → BindingStore → Result AuthorizationError (List RoleBinding)
find_for_subject identity tenant [] = ok []
find_for_subject identity tenant ((_, b) ∷ items) =
    let rest = find_for_subject identity tenant items in
    if is_of identity tenant b then (do c ← copy b; cs ← rest; ok (c ∷ cs)) else rest

-- The comprehension of `find_active_for_subject`.
unfoldable pub keep_active :
    DateTime → List RoleBinding → Result AuthorizationError (List RoleBinding)
keep_active at [] = ok []
keep_active at (b ∷ bs) = do
  active ← is_active at b
  rest ← keep_active at bs
  ok (if active then b ∷ rest else rest)

unfoldable pub find_active_for_subject :
    ℕ → ℕ → DateTime → BindingStore → Result AuthorizationError (List RoleBinding)
find_active_for_subject identity tenant at items = do
  bs ← find_for_subject identity tenant items
  keep_active at bs
