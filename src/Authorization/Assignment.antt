-- ===== src/Authorization/Assignment.antt =====
-- src/pyiamkit/authorization/binding_application.py: RoleBindingApplicationService, on the in-memory
-- repository of bindings. The privileged-action guard is an argument.
pub mod Assigned
pub mod Changes
use pyiamkit.Prelude.{
  ℕ, Bool, true, false, not, ◌&&◌, Option, none, some, List, [], ◌∷◌, ◌++◌, Result, ok, err, ◌>>=◌,
  ◌>>◌, guard, or_raise, map_err, any, ◌==◌, Text, if◌then◌else◌,
}
use pyiamkit.Shared.{DateTime, DomainEvent}
use pyiamkit.Identity.Values
use pyiamkit.Tenancy.Values.{
  TenantScope, scope_eq, TenancyError, tenant_not_found, tenant_inactive, tenant_mismatch,
}
use pyiamkit.Tenancy.Tenant
use pyiamkit.Authorization.Values.{
  GrantSource, AuthorizationCatalogEventType, AuthorizationError, invalid_role_binding,
  role_not_found, role_inactive, role_not_assignable, role_tenant_mismatch,
  role_binding_already_exists, role_binding_not_found,
}
use pyiamkit.Authorization.Role.{Role}
use pyiamkit.Authorization.Role
use pyiamkit.Authorization.RoleBinding.{RoleBinding, BindingResult, create, pull_events}
use pyiamkit.Authorization.RoleBinding
use pyiamkit.Authorization.Requests.{AuthenticationEvidence}
use pyiamkit.Authorization.Governance.{ensure_assignment_allowed}
use pyiamkit.Authorization.Memory.{BindingStore, get, save, find_active_for_subject}
use pyiamkit.Authorization.Engine.Repositories.{Ports}
use pyiamkit.Authorization.Engine.{role_in_tenant}

-- The exceptions of the service's methods.
pub data AssignmentError : Type 0 where
  identity_not_found : ℕ → AssignmentError
  tenancy : TenancyError → AssignmentError
  authorization : AuthorizationError → AssignmentError
  privileged_action_denied runtime_error : AssignmentError

-- The arguments of `assign_role`.
pub record Assignment : Type 0 where
  pub identity_id : ℕ
  pub role_id : ℕ
  pub tenant_id : ℕ
  pub scope : TenantScope
  pub valid_until : Option DateTime
  pub grant_source : GrantSource
  pub granted_by : Option ℕ
  pub justification : Option Text
  pub authentication : Option AuthenticationEvidence

-- The binding repository and the events that the sink was given.
pub record State : Type 0 where
  pub items : BindingStore
  pub published : List (DomainEvent AuthorizationCatalogEventType)

-- `guard.require` on the context that the service makes of the assignment.
abbrev pub PrivilegedGuard : Type 0
PrivilegedGuard = Assignment → Result AssignmentError (Unit {0})

-- `_save`: the events are pulled and the binding saved; then the events are published.
abbrev or_missing : Option RoleBinding → State → Result AssignmentError (RoleBinding × State)
or_missing none st = err runtime_error
or_missing (some b) st = ok (b, st)

unfoldable pub save_binding : RoleBinding → State → Result AssignmentError (RoleBinding × State)
unfolding pull_events
save_binding b st = do
  let (events, pulled) = pull_events b
  items ← map_err authorization (save pulled st.items)
  saved ← map_err authorization (get b.id items)
  or_missing saved (record { items = items; published = st.published ++ events })

abbrev pub check_sensitive :
    Option PrivilegedGuard → Role → Assignment → Result AssignmentError (Unit {0})
check_sensitive none role a = if role.sensitive then err privileged_action_denied else ok tt
check_sensitive (some require) role a = if role.sensitive then require a else ok tt

module _ (ports : Ports) (now : DateTime) where
  -- `assign_role` up to the checks of the Role.
  unfoldable pub require_assignable :
      Option PrivilegedGuard → Assignment → Result AssignmentError Role
  require_assignable privileged a = do
    status ← or_raise (ports.identity a.identity_id) (identity_not_found a.identity_id)
    guard (Values.is_active status) (authorization invalid_role_binding)
    tenant ← or_raise (ports.tenant a.tenant_id) (tenancy (tenant_not_found a.tenant_id))
    guard (Tenant.is_active tenant.status) (tenancy tenant_inactive)
    guard (a.scope.tenant_id == a.tenant_id)
        (tenancy (tenant_mismatch a.tenant_id a.scope.tenant_id))
    found ← map_err authorization (ports.find_active a.identity_id a.tenant_id now)
    membership ← or_raise found (authorization invalid_role_binding)
    role ← or_raise (ports.roles.get a.role_id) (authorization (role_not_found a.role_id))
    guard (Role.is_active role.status) (authorization (role_inactive a.role_id))
    guard role.assignable (authorization (role_not_assignable a.role_id))
    guard (role_in_tenant role.tenant_id a.tenant_id) (authorization role_tenant_mismatch)
    check_sensitive privileged role a
    ok role

  -- The binding gives the Role in the scope.
  abbrev pub gives : Assignment → RoleBinding → Bool
  gives a b = b.role_id == a.role_id && scope_eq b.scope a.scope

  -- The static separation of duties, where it is configured.
  unfoldable pub check_duties : Assignment → List RoleBinding → Result AuthorizationError (Unit {0})
  check_duties a bindings = elim ports.sod [
    | none ↦ ok tt
    | some sod ↦
        ensure_assignment_allowed ports.roles ports.max_depth (sod.list_static a.tenant_id)
          a.role_id bindings
  ]

  -- The new binding, which may be refused.
  unfoldable pub bind_role : ℕ → Assignment → BindingStore → BindingResult
  bind_role new_id a items = do
    active ← find_active_for_subject a.identity_id a.tenant_id now items
    guard (not (any (gives a) active)) role_binding_already_exists
    check_duties a active
    create new_id a.identity_id a.role_id a.tenant_id a.scope now a.valid_until a.grant_source
        a.granted_by a.justification

  unfoldable pub assign_role :
      Option PrivilegedGuard → ℕ → Assignment → State → Result AssignmentError (RoleBinding × State)
  assign_role privileged new_id a st = do
    role ← require_assignable privileged a
    b ← map_err authorization (bind_role new_id a st.items)
    save_binding b st

-- `_require_binding`.
unfoldable pub require_binding : ℕ → State → Result AssignmentError RoleBinding
require_binding n st = do
  found ← map_err authorization (get n st.items)
  or_raise found (authorization (role_binding_not_found n))

-- `suspend_binding`, `reactivate_binding` and `revoke_binding`, by the method that they call.
unfoldable pub change_binding :
    (RoleBinding → BindingResult) → ℕ → State → Result AssignmentError (RoleBinding × State)
unfolding require_binding save_binding
change_binding method n st = do
  b ← require_binding n st
  changed ← map_err authorization (method b)
  save_binding changed st

unfoldable pub suspend_binding : DateTime → ℕ → State → Result AssignmentError (RoleBinding × State)
unfolding change_binding
suspend_binding now = change_binding (RoleBinding.suspend now)

unfoldable pub reactivate_binding :
    DateTime → ℕ → State → Result AssignmentError (RoleBinding × State)
unfolding change_binding
reactivate_binding now = change_binding (RoleBinding.reactivate now)

unfoldable pub revoke_binding : DateTime → ℕ → State → Result AssignmentError (RoleBinding × State)
unfolding change_binding
revoke_binding now = change_binding (RoleBinding.revoke now)

unfoldable active_bindings : DateTime → ℕ → ℕ → State → Result AssignmentError (List RoleBinding)
active_bindings now identity tenant st =
    map_err authorization (find_active_for_subject identity tenant now st.items)
