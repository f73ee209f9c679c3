-- ===== src/Authorization/Engine/Soundness.antt =====
-- What an allowing decision of the engine means.
use pyiamkit.Prelude.{
  ℕ, suc, ◌≤◌, ◌≡◌, refl, sym, ap, ◌∙◌, subst, true, Option, none, some, List, ok, >>=-eq-ok, guard,
  guard-eq-ok, or_raise, or_raise-eq-ok, map_err, map_err-eq-ok, In, In-filter, All, length, arith,
}
use pyiamkit.Shared.{DateTime}
use pyiamkit.Identity.Values.{IdentityStatus}
use pyiamkit.Identity.Values
use pyiamkit.Tenancy.Values.{TenantStatus, scope_eq}
use pyiamkit.Tenancy.Tenant.{Tenant}
use pyiamkit.Tenancy.Tenant
use pyiamkit.Tenancy.Membership.{Membership}
use pyiamkit.Authorization.Values.{Permission, PermissionCode}
use pyiamkit.Authorization.Role.{Role}
use pyiamkit.Authorization.Role
use pyiamkit.Authorization.RoleBinding.{RoleBinding}
use pyiamkit.Authorization.Hierarchy.Paths.{PermissionPath, permission_path_sound}
use pyiamkit.Authorization.Requests.{AuthorizationRequest}
use pyiamkit.Authorization.Governance.{AuthorizationConstraint}
use pyiamkit.Authorization.Governance.Constraints.{
  IsSatisfied, evaluate_constraints-none, HasOtherActor, evaluate_duties-none,
}
use pyiamkit.Authorization.Governance.Duties.{IsSeparated, detect_runtime-IsSeparated}
use pyiamkit.Authorization.Engine.Repositories.{
  Ports, SodRules, IsActiveMembership, IsActiveBinding,
}
use pyiamkit.Authorization.Engine.Grants.{In-sort_bindings, IsChosen, try_bindings-ok}
use pyiamkit.Authorization.Engine.{
  raised, Grant, sort_bindings, non_empty, role_in_tenant, static_violation, dynamic_violation,
  constraint_violation_of, evaluate_governance, scoped, evaluate,
}

module _ (ports : Ports) (request : AuthorizationRequest) where
  -- What the three kinds of governance rules demand, where their repository is configured.
  abbrev ConstraintsMet : Option (PermissionCode → ℕ → List AuthorizationConstraint) → Type 0
  ConstraintsMet none = Unit
  ConstraintsMet (some list) = All (IsSatisfied request) (list request.permission request.tenant_id)

  abbrev DutiesKept : List RoleBinding → Option SodRules → Type 0
  DutiesKept bindings none = Unit
  DutiesKept bindings (some sod) =
      All (IsSeparated ports.roles ports.max_depth bindings) (sod.list_static request.tenant_id)
      × All (HasOtherActor request) (sod.list_dynamic request.permission request.tenant_id)

  pub record IsGoverned (bindings : List RoleBinding) : Type 0 where
    pub constraints : ConstraintsMet ports.list_for
    pub duties : DutiesKept bindings ports.sod

  static-ok :
      (bindings : List RoleBinding) (sod : SodRules)
      → ports.sod ≡ some sod
      → static_violation ports request bindings ≡ none
      → All (IsSeparated ports.roles ports.max_depth bindings) (sod.list_static request.tenant_id)
  unfolding static_violation
  static-ok bindings sod e h =
      detect_runtime-IsSeparated ports.roles ports.max_depth (sod.list_static request.tenant_id)
        bindings (rw (e, static_violation) at h)

  dynamic-ok :
      (sod : SodRules)
      → ports.sod ≡ some sod
      → dynamic_violation ports request ≡ none
      → All (HasOtherActor request) (sod.list_dynamic request.permission request.tenant_id)
  unfolding dynamic_violation
  dynamic-ok sod e h =
      (evaluate_duties-none (sod.list_dynamic request.permission request.tenant_id) request).0
        (rw (e, dynamic_violation) at h)

  constraints-ok :
      (list : PermissionCode → ℕ → List AuthorizationConstraint)
      → ports.list_for ≡ some list
      → constraint_violation_of ports request ≡ none
      → All (IsSatisfied request) (list request.permission request.tenant_id)
  unfolding constraint_violation_of
  constraints-ok list e h =
      (evaluate_constraints-none (list request.permission request.tenant_id) request).0
        (rw (e, constraint_violation_of) at h)

  governed-parts :
      (bindings : List RoleBinding)
      → evaluate_governance ports request bindings ≡ none
      → (static_violation ports request bindings ≡ none)
        × (dynamic_violation ports request ≡ none)
        × (constraint_violation_of ports request ≡ none)
  unfolding evaluate_governance
  governed-parts bindings h = ground arith

  evaluate_governance-none :
      (bindings : List RoleBinding)
      → evaluate_governance ports request bindings ≡ none
      → IsGoverned bindings
  evaluate_governance-none bindings h =
      let (s, d, c) = governed-parts bindings h in
      record { constraints = met ports.list_for refl c; duties = kept ports.sod refl s d }
    where
      met :
          (o : Option (PermissionCode → ℕ → List AuthorizationConstraint))
          → ports.list_for ≡ o
          → constraint_violation_of ports request ≡ none
          → ConstraintsMet o
      met none e c = tt
      met (some list) e c = constraints-ok list e c

      kept :
          (o : Option SodRules)
          → ports.sod ≡ o
          → static_violation ports request bindings ≡ none
          → dynamic_violation ports request ≡ none
          → DutiesKept bindings o
      kept none e s d = tt
      kept (some sod) e s d = (static-ok bindings sod e s, dynamic-ok sod e d)

  -- Why the request may be allowed at `now` through the grant `g`.
  pub record IsPermitted (now : DateTime) (g : Grant) : Type 0 where
    pub subject_active : ports.identity request.subject_id ≡ some IdentityStatus.active
    pub tenant_active :
        (t : Tenant) × (ports.tenant request.tenant_id ≡ some t) × (t.status ≡ TenantStatus.active)
    pub membership_found :
        ports.find_active request.subject_id request.tenant_id now ≡ ok (some g.membership)
    pub membership : IsActiveMembership request.subject_id request.tenant_id now g.membership
    pub registered : (p : Permission) × (ports.permission request.permission ≡ some p)
    pub binding : IsActiveBinding request.subject_id request.tenant_id now g.binding
    pub scope : g.binding.scope ≡ request.scope
    pub role_stored : ports.roles.get g.binding.role_id ≡ some g.role
    pub role_active : Role.is_active g.role.status ≡ true
    pub role_tenant : role_in_tenant g.role.tenant_id request.tenant_id ≡ true
    pub path : PermissionPath ports.roles request.permission g.role g.path
    pub path_bounded : length g.path ≤ suc ports.max_depth
    pub listed :
        (bindings : List RoleBinding) × (ports.find_active_for_subject request.subject_id
            request.tenant_id now
          ≡ ok bindings)
        × In g.binding bindings
        × IsGoverned bindings

  pub evaluate-IsPermitted :
      (now : DateTime) {g : Grant} → evaluate ports request now ≡ ok g → IsPermitted now g
  unfolding evaluate
  evaluate-IsPermitted now {g} h =
      let (status, e₁, h₁) = >>=-eq-ok (or_raise (ports.identity request.subject_id) _) _ h in
      let (_, e₂, h₂) = >>=-eq-ok (guard (Values.is_active status) _) _ h₁ in
      let (tenant, e₃, h₃) = >>=-eq-ok (or_raise (ports.tenant request.tenant_id) _) _ h₂ in
      let (_, e₄, h₄) = >>=-eq-ok (guard (Tenant.is_active tenant.status) _) _ h₃ in
      let (found, e₅, h₅) =
        >>=-eq-ok (map_err raised (ports.find_active request.subject_id request.tenant_id now)) _
          h₄ in
      let (m, e₆, h₆) = >>=-eq-ok (or_raise found _) _ h₅ in
      let (p, e₇, h₇) = >>=-eq-ok (or_raise (ports.permission request.permission) _) _ h₆ in
      let (bs, e₈, h₈) =
        >>=-eq-ok
          (map_err raised (ports.find_active_for_subject request.subject_id request.tenant_id now))
          _ h₇ in
      let (_, e₉, h₉) = >>=-eq-ok (guard (non_empty bs) _) _ h₈ in
      let (_, e₁₀, h₁₀) = >>=-eq-ok (guard (non_empty (scoped ports request bs)) _) _ h₉ in
      finish status (or_raise-eq-ok _ _ e₁) (guard-eq-ok _ _ e₂) tenant (or_raise-eq-ok _ _ e₃)
        (guard-eq-ok _ _ e₄) m (map_err-eq-ok _ _ e₅ ∙ ap ok (or_raise-eq-ok _ _ e₆)) p
        (or_raise-eq-ok _ _ e₇) bs (map_err-eq-ok _ _ e₈)
        (try_bindings-ok ports request bs m (sort_bindings (scoped ports request bs)) h₁₀)
    where
      finish :
          (status : IdentityStatus)
          → ports.identity request.subject_id ≡ some status
          → Values.is_active status ≡ true
          → (tenant : Tenant) → ports.tenant request.tenant_id ≡ some tenant
          → Tenant.is_active tenant.status ≡ true
          → (m : Membership)
          → ports.find_active request.subject_id request.tenant_id now ≡ ok (some m)
          → (p : Permission) → ports.permission request.permission ≡ some p
          → (bs : List RoleBinding)
          → ports.find_active_for_subject request.subject_id request.tenant_id now ≡ ok bs
          → In g.binding (sort_bindings (scoped ports request bs))
            × (g.membership ≡ m)
            × IsChosen ports request bs g
          → IsPermitted now g
      finish status s active tenant t t_active m f p r bs b (i, same, chosen) =
          let c = chosen.is_candidate in
          let (j, in_scope) =
            In-filter (λ x. scope_eq x.scope request.scope) g.binding bs
              (In-sort_bindings g.binding (scoped ports request bs) i) in
          let (root, stored, _, leads, short, _) =
            permission_path_sound ports.roles ports.max_depth g.role.id request.permission
              c.searched in
          let at_id = ports.roles.get_id g.binding.role_id g.role c.stored in
          let is_root : root ≡ g.role = ground (arith, at_id, stored, c.stored) in
          record {
            subject_active = ground arith;
            tenant_active = (tenant, t, ground arith);
            membership_found =
                subst
                  (λ x. ports.find_active request.subject_id request.tenant_id now ≡ ok (some x))
                  (sym same) f;
            membership =
                subst (IsActiveMembership request.subject_id request.tenant_id now) (sym same)
                  (ports.membership_active request.subject_id request.tenant_id now m f);
            registered = (p, r);
            binding =
                ports.bindings_active request.subject_id request.tenant_id now bs g.binding b j;
            scope = ground arith;
            role_stored = c.stored;
            role_active = c.available;
            role_tenant = c.tenant;
            path =
                subst (λ x. PermissionPath ports.roles request.permission x g.path) is_root leads;
            path_bounded = short;
            listed = (bs, b, j, evaluate_governance-none bs chosen.governed);
          }
