-- ===== src/Tests/Lifecycles.antt =====
-- The aggregates, each through some of its calls.
use pyiamkit.Prelude.{◌≡◌, refl, false, List, [], ◌∷◌, ok, strip, contains, nat_eq, Distinct}
use pyiamkit.Shared.{after, run, DateTime}
use pyiamkit.Tenancy.Tenant.Lifecycle as TenantLifecycle
use pyiamkit.Authorization.Values.{permission_eq}
use pyiamkit.Authorization.Role.{Role}
use pyiamkit.Authorization.Role
use pyiamkit.Authorization.Role.Laws as RoleLaws
use pyiamkit.Authorization.RoleBinding.Lifecycle as BindingLifecycle
use pyiamkit.Tests.Data.{noon, evening, writing, viewer, binding, firm}

binding-Outcome_example :
    BindingLifecycle.Outcome BindingLifecycle.Call.suspends noon binding
      (BindingLifecycle.call BindingLifecycle.Call.suspends noon binding)
binding-Outcome_example =
    BindingLifecycle.binding-Outcome BindingLifecycle.Call.suspends noon binding

tenant-Outcome_example :
    TenantLifecycle.Outcome TenantLifecycle.Call.archives noon firm
      (TenantLifecycle.call TenantLifecycle.Call.archives noon firm)
tenant-Outcome_example = TenantLifecycle.tenant-Outcome TenantLifecycle.Call.archives noon firm

-- Role.
abbrev wider_viewer : Role
wider_viewer = after viewer (Role.add_permission writing noon viewer)

widened : Role.add_permission writing noon viewer ≡ ok wider_viewer
unfolding Role.add_permission
widened = refl

viewer-init : Role.init viewer.args ≡ ok viewer
unfolding Role.init strip
viewer-init = refl

only_reading : Distinct viewer.permissions
only_reading = ((λ i. i), tt)

abbrev viewer_calls : List (DateTime × RoleLaws.Call)
viewer_calls =
    (noon, RoleLaws.Call.adds_permission writing) ∷ (evening, RoleLaws.Call.adds_parent 1) ∷ []

role-rehydrates_example :
    Distinct (run RoleLaws.call viewer_calls viewer).permissions
    × Distinct (run RoleLaws.call viewer_calls viewer).parent_role_ids
    × (contains
          (run RoleLaws.call viewer_calls viewer).id
          (run RoleLaws.call viewer_calls viewer).parent_role_ids
        ≡ false)
    × (Role.rehydrate (run RoleLaws.call viewer_calls viewer).args
        ≡ ok (record (run RoleLaws.call viewer_calls viewer) { pending_events = [] }))
role-rehydrates_example =
    RoleLaws.role-rehydrates viewer.args only_reading tt refl viewer-init viewer_calls
