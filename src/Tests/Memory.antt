-- ===== src/Tests/Memory.antt =====
-- The repository of bindings with one binding.
use pyiamkit.Prelude.{◌≡◌, ◌↔◌, refl, true, List, [], ◌∷◌, ok, In, values}
use pyiamkit.Authorization.RoleBinding.{RoleBinding, active_at}
use pyiamkit.Authorization.RoleBinding.Lifecycle.{IsValid}
use pyiamkit.Authorization.Memory.{BindingStore, find_active_for_subject}
use pyiamkit.Authorization.Memory.Bindings.{IsStored, find_active_for_subject-exact}
use pyiamkit.Tests.Data.{binding, binding_args, noon}

binding-IsValid : IsValid binding_args
binding-IsValid = record {
  created_utc = refl;
  updated_utc = refl;
  from_utc = refl;
  until_utc = refl;
  scoped = refl;
  ordered = refl;
  normalized = refl;
}

abbrev pub items : BindingStore
items = (21, binding) ∷ []

pub items-IsStored : IsStored items
items-IsStored = (record { valid = binding-IsValid; no_events = refl }, tt)

find_active_for_subject-exact_example :
    (bs : List RoleBinding) × (find_active_for_subject 5 7 noon items ≡ ok bs)
    × ((b : RoleBinding)
        → In b bs ↔ (
            In b (values items)
            × (b.identity_id ≡ 5)
            × (b.tenant_id ≡ 7)
            × (active_at noon b.args ≡ true)))
find_active_for_subject-exact_example =
    find_active_for_subject-exact 5 7 noon items items-IsStored refl
