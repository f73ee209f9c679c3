-- ===== src/Authorization/Memory/Filled.antt =====
-- The engine's ports, filled by the in-memory repositories, on dictionaries that their `save` methods
-- have written. The statuses of the identities are an argument.
use pyiamkit.Prelude.{ℕ, ◌≡◌, Option, some, Result, ok, map_err, map_err-eq-ok, lookup}
use pyiamkit.Shared.{DateTime}
use pyiamkit.Shared.Stores.Laws.{IsStore}
use pyiamkit.Identity.Values.{IdentityStatus}
use pyiamkit.Tenancy.Membership.{Membership}
use pyiamkit.Tenancy.Memory.Tenants
use pyiamkit.Tenancy.Memory.Memberships
use pyiamkit.Authorization.Values.{AuthorizationError, value_error}
use pyiamkit.Authorization.Memory.{BindingStore, find_active_for_subject}
use pyiamkit.Authorization.Memory.Bindings.{IsStored, find_active_for_subject-IsActiveBinding}
use pyiamkit.Authorization.Memory.Roles.{Store, repository}
use pyiamkit.Authorization.Memory.Rules.{
  Catalog, get_permission, list_for, list_static, list_dynamic,
}
use pyiamkit.Authorization.Governance.Registration.{State}
use pyiamkit.Authorization.Engine.Repositories.{Ports, IsActiveMembership}

pub record Stores : Type 0 where
  pub identities : ℕ → Option IdentityStatus
  pub tenants : Tenants.Items
  pub memberships : Memberships.Items
  pub catalog : Catalog
  pub roles : Store
  pub bindings : BindingStore
  pub memberships_hold : IsStore Memberships.memberships memberships
  pub bindings_hold : IsStored bindings

-- `is_active` raises `ValueError` alone.
abbrev pub find_active : Stores → ℕ → ℕ → DateTime → Result AuthorizationError (Option Membership)
find_active s subject tenant at =
    map_err (λ _. value_error) (Memberships.find_active subject tenant at s.memberships)

pub find_active-IsActiveMembership :
    (s : Stores) (subject tenant : ℕ) (at : DateTime) (m : Membership)
    → find_active s subject tenant at ≡ ok (some m)
    → IsActiveMembership subject tenant at m
find_active-IsActiveMembership s subject tenant at m h =
    let (_, i, t, v, a) =
      Memberships.find_active-stored subject tenant at s.memberships {m = m} s.memberships_hold
        (map_err-eq-ok _ _ h) in
    record { valid = v; of_subject = i; in_tenant = t; active = a }

-- The repositories, with the rules that were registered.
abbrev pub in_memory_ports : Stores → ℕ → State → Ports
in_memory_ports s max_depth rules = record {
  identity = s.identities;
  tenant = λ n. lookup n s.tenants;
  find_active = find_active s;
  permission = λ code. get_permission code s.catalog;
  roles = repository s.roles;
  find_active_for_subject =
      λ subject tenant at. find_active_for_subject subject tenant at s.bindings;
  max_depth = max_depth;
  list_for = some (λ code tenant. list_for code tenant rules.constraints);
  sod = some (record {
    list_static = λ tenant. list_static tenant rules.sod;
    list_dynamic = λ code tenant. list_dynamic code tenant rules.sod;
  });
  membership_active = find_active-IsActiveMembership s;
  bindings_active = λ subject tenant at bs b h i.
      find_active_for_subject-IsActiveBinding subject tenant at s.bindings bs b s.bindings_hold h i;
}
