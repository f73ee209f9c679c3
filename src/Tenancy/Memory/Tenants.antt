-- ===== src/Tenancy/Memory/Tenants.antt =====
-- src/pyiamkit/tenancy/adapters/memory.py: InMemoryTenantRepository.
use pyiamkit.Prelude.{ℕ, ◌≡◌, Option, List, [], Result, ok, Text, strip, text_beq, Unicode, arith}
use pyiamkit.Shared.Stores.{Copier, get_copy, save_copy, copy_first}
use pyiamkit.Tenancy.Values.{TenancyError}
use pyiamkit.Tenancy.Tenant.{Tenant, TenantResult, init, rehydrate}
use pyiamkit.Tenancy.Tenant.Lifecycle.{init-IsValid, init_rehydrates}

-- `_items`.
abbrev pub Items : Type 0
Items = List (ℕ × Tenant)

module _ (u : Unicode) where
  -- `_copy`.
  unfoldable pub copy : Tenant → TenantResult
  copy t = rehydrate u t.args

  init_no_events : (a b : Tenant) → init u a.args ≡ ok b → b.pending_events ≡ []
  unfolding init
  init_no_events a b h = ground arith

  pub copy_idem : (a b : Tenant) → copy a ≡ ok b → copy b ≡ ok b
  unfolding copy rehydrate
  copy_idem a b h =
      let again = init_rehydrates u b (init-IsValid u a.args h) in
      let bare = init_no_events a b h in ground arith

  pub copy_id : (a b : Tenant) → copy a ≡ ok b → b.id ≡ a.id
  unfolding copy rehydrate init
  copy_id a b h = ground arith

  abbrev pub tenants : Copier TenancyError Tenant
  tenants = record {
    id = λ (t : Tenant). t.id;
    copy = copy;
    copy_idem = copy_idem;
    copy_id = copy_id;
  }

  unfoldable pub get : ℕ → Items → Result TenancyError (Option Tenant)
  unfolding get_copy
  get n items = get_copy copy n items

  unfoldable pub save : Tenant → Items → Result TenancyError Items
  unfolding save_copy
  save t items = save_copy tenants t items

  unfoldable pub find_by_slug : Text → Items → Result TenancyError (Option Tenant)
  unfolding copy_first
  find_by_slug slug items =
      copy_first copy (λ (t : Tenant). text_beq t.slug (u.lower (strip slug))) items
