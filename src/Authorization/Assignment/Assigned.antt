-- ===== src/Authorization/Assignment/Assigned.antt =====
-- What an assignment that returns has checked and stored.
use pyiamkit.Prelude.{
  ℕ, ◌≡◌, refl, sym, ap, ◌∙◌, subst, true, false, not, Option, none, some, List, [], ◌∷◌, ◌++◌, ok,
  >>=-eq-ok, guard, guard-eq-ok, or_raise, or_raise-eq-ok, map_err, map_err-eq-ok, any, ◌==◌,
  strip_or_none, strip_or_none_idem, arith,
}
use pyiamkit.Shared.{DateTime}
use pyiamkit.Tenancy.Tenant.{Tenant}
use pyiamkit.Tenancy.Tenant
use pyiamkit.Tenancy.Membership.{Membership}
use pyiamkit.Identity.Values.{IdentityStatus}
use pyiamkit.Identity.Values
use pyiamkit.Authorization.Values.{RoleBindingStatus}
use pyiamkit.Authorization.Role.{Role}
use pyiamkit.Authorization.Role
use pyiamkit.Authorization.RoleBinding.{RoleBinding, RoleBindingArgs, create, init}
use pyiamkit.Authorization.RoleBinding.Lifecycle.{IsValid}
use pyiamkit.Authorization.Governance.{detect_runtime, ensure_assignment_allowed}
use pyiamkit.Authorization.Governance.Duties.{ensure-detect}
use pyiamkit.Authorization.Memory.{BindingStore, get, find_active_for_subject}
use pyiamkit.Authorization.Memory.Bindings.{IsStored, saved, get-save}
use pyiamkit.Authorization.Engine.Repositories.{Ports, SodRules}
use pyiamkit.Authorization.Engine.{role_in_tenant}
use pyiamkit.Authorization.Assignment.{
  Assignment, State, PrivilegedGuard, authorization, check_sensitive, require_assignable, gives,
  check_duties, bind_role, save_binding, assign_role,
}

-- The period and the grant of a new binding: valid from now until the asked end, with the asked source,
-- granting identity and justification, which is stripped and dropped where nothing is left.
pub record IsAsked (a : Assignment) (now : DateTime) (b : RoleBindingArgs) : Type 0 where
  pub valid_from : b.valid_from ≡ now
  pub valid_until : b.valid_until ≡ a.valid_until
  pub created_at : b.created_at ≡ now
  pub grant_source : b.grant_source ≡ a.grant_source
  pub granted_by : b.granted_by ≡ a.granted_by
  pub justification : b.justification ≡ strip_or_none a.justification

-- The fields that `create` takes from its caller.
create-IsValid :
    (new_id : ℕ) (a : Assignment) (now : DateTime) {b : RoleBinding}
    → create new_id a.identity_id a.role_id a.tenant_id a.scope now a.valid_until a.grant_source
        a.granted_by a.justification
      ≡ ok b
    → IsValid b.args
      × (b.id ≡ new_id)
      × (b.identity_id ≡ a.identity_id)
      × (b.role_id ≡ a.role_id)
      × (b.tenant_id ≡ a.tenant_id)
      × (b.scope ≡ a.scope)
      × (b.status ≡ RoleBindingStatus.active)
      × IsAsked a now b.args
unfolding create init
create-IsValid new_id a now {b} h = (
  ground (arith, strip_or_none_idem a.justification),
  ground arith,
  ground arith,
  ground arith,
  ground arith,
  ground arith,
  ground arith,
  record {
    valid_from = ground arith;
    valid_until = ground arith;
    created_at = ground arith;
    grant_source = ground arith;
    granted_by = ground arith;
    justification = ground arith;
  },
)

-- What `_save` leaves of a valid binding.
pub save_binding-ok :
    (c : RoleBinding) (st : State) {b : RoleBinding} {st' : State}
    → IsStored st.items
    → IsValid c.args
    → save_binding c st ≡ ok (b, st')
    → (b ≡ saved c)
      × IsStored st'.items
      × (get c.id st'.items ≡ ok (some (saved c)))
      × ((n : ℕ) → n == c.id ≡ false → get n st'.items ≡ get n st.items)
      × (st'.published ≡ st.published ++ c.pending_events)
unfolding save_binding
save_binding-ok c st {b} {st'} s v h =
    let (items, e, kept, here, there) = get-save (saved c) st.items s v in
    let done : save_binding c st
        ≡ ok (saved c, record { items = items; published = st.published ++ c.pending_events }) =
      rw (e, here) refl in
    let both = sym h ∙ done in
    let same : b ≡ saved c = ground arith in
    let left : st' ≡ record { items = items; published = st.published ++ c.pending_events } =
      ground arith in
    (
      same,
      subst (λ (x : State). IsStored x.items) (sym left) kept,
      subst (λ (x : State). get c.id x.items ≡ ok (some (saved c))) (sym left) here,
      subst (λ (x : State). (n : ℕ) → n == c.id ≡ false → get n x.items ≡ get n st.items) (sym left)
          there,
      ap (λ (x : State). x.published) left,
    )

module _ (ports : Ports) (now : DateTime) where
  -- The Role of an assignment that passes the first checks.
  pub record IsAssignable (privileged : Option PrivilegedGuard) (a : Assignment) (role : Role)
      : Type 0 where
    pub identity :
        (i : IdentityStatus) × (ports.identity a.identity_id ≡ some i) × (Values.is_active i ≡ true)
    pub tenant :
        (t : Tenant) × (ports.tenant a.tenant_id ≡ some t) × (Tenant.is_active t.status ≡ true)
    pub member : (m : Membership) × (ports.find_active a.identity_id a.tenant_id now ≡ ok (some m))
    pub stored : ports.roles.get a.role_id ≡ some role
    pub available : Role.is_active role.status ≡ true
    pub assignable : role.assignable ≡ true
    pub role_tenant : role_in_tenant role.tenant_id a.tenant_id ≡ true
    pub permitted : check_sensitive privileged role a ≡ ok tt

  -- What the check of the static rules promises of the bindings with the new one.
  abbrev pub StaysSeparated : Assignment → List RoleBinding → Option SodRules → Type 0
  StaysSeparated a bs none = Unit
  StaysSeparated a bs (some sod) =
      detect_runtime ports.roles ports.max_depth (sod.list_static a.tenant_id) bs ≡ none

  check_duties-StaysSeparated :
      (a : Assignment) (bs : List RoleBinding) (b : RoleBinding)
      → b.role_id ≡ a.role_id
      → check_duties ports now a bs ≡ ok tt
      → StaysSeparated a (bs ++ b ∷ []) ports.sod
  unfolding check_duties
  check_duties-StaysSeparated a bs b same h = go ports.sod refl h
    where
      go :
          (o : Option SodRules)
          → ports.sod ≡ o
          → check_duties ports now a bs ≡ ok tt
          → StaysSeparated a (bs ++ b ∷ []) o
      go none e k = tt
      go (some sod) e k =
          ensure-detect ports.roles ports.max_depth (sod.list_static a.tenant_id) bs b (
            subst
              (λ n.
                ensure_assignment_allowed ports.roles ports.max_depth (sod.list_static a.tenant_id)
                  n bs
                ≡ ok tt)
              (sym same) (rw (e, check_duties) at k))

  bind_role-ok :
      (new_id : ℕ) (a : Assignment) (items : BindingStore) {b : RoleBinding}
      → bind_role ports now new_id a items ≡ ok b
      → (bs : List RoleBinding) × (find_active_for_subject a.identity_id a.tenant_id now items
          ≡ ok bs)
        × (any (gives ports now a) bs ≡ false)
        × (check_duties ports now a bs ≡ ok tt)
        × (create new_id a.identity_id a.role_id a.tenant_id a.scope now a.valid_until
              a.grant_source a.granted_by a.justification
            ≡ ok b)
  unfolding bind_role
  bind_role-ok new_id a items h =
      let (bs, e, h₁) =
        >>=-eq-ok (find_active_for_subject a.identity_id a.tenant_id now items) _ h in
      let (_, e₂, h₂) = >>=-eq-ok (guard (not (any (gives ports now a) bs)) _) _ h₁ in
      let (u, e₃, h₃) = >>=-eq-ok (check_duties ports now a bs) _ h₂ in
      (bs, e, ground (arith, guard-eq-ok _ _ e₂), e₃, h₃)

  require_assignable-ok :
      (privileged : Option PrivilegedGuard) (a : Assignment) {role : Role}
      → require_assignable ports now privileged a ≡ ok role
      → IsAssignable privileged a role
  unfolding require_assignable
  require_assignable-ok privileged a {role} h =
      let (status, e₁, h₁) = >>=-eq-ok (or_raise (ports.identity a.identity_id) _) _ h in
      let (_, e₂, h₂) = >>=-eq-ok (guard (Values.is_active status) _) _ h₁ in
      let (tenant, e₃, h₃) = >>=-eq-ok (or_raise (ports.tenant a.tenant_id) _) _ h₂ in
      let (_, e₄, h₄) = >>=-eq-ok (guard (Tenant.is_active tenant.status) _) _ h₃ in
      let (_, e₅, h₅) = >>=-eq-ok (guard (a.scope.tenant_id == a.tenant_id) _) _ h₄ in
      let (found, e₆, h₆) =
        >>=-eq-ok (map_err authorization (ports.find_active a.identity_id a.tenant_id now)) _ h₅ in
      let (m, e₇, h₇) = >>=-eq-ok (or_raise found _) _ h₆ in
      let (r, e₈, h₈) = >>=-eq-ok (or_raise (ports.roles.get a.role_id) _) _ h₇ in
      let (_, e₉, h₉) = >>=-eq-ok (guard (Role.is_active r.status) _) _ h₈ in
      let (_, e₁₀, h₁₀) = >>=-eq-ok (guard r.assignable _) _ h₉ in
      let (_, e₁₁, h₁₁) = >>=-eq-ok (guard (role_in_tenant r.tenant_id a.tenant_id) _) _ h₁₀ in
      let (_, e₁₂, h₁₂) = >>=-eq-ok (check_sensitive privileged r a) _ h₁₁ in
      let same : r ≡ role = ground arith in
      record {
        identity = (status, or_raise-eq-ok _ _ e₁, guard-eq-ok _ _ e₂);
        tenant = (tenant, or_raise-eq-ok _ _ e₃, guard-eq-ok _ _ e₄);
        member = (m, map_err-eq-ok _ _ e₆ ∙ ap ok (or_raise-eq-ok _ _ e₇));
        stored = or_raise-eq-ok _ _ e₈ ∙ ap some same;
        available = subst (λ (x : Role). Role.is_active x.status ≡ true) same (guard-eq-ok _ _ e₉);
        assignable = subst (λ (x : Role). x.assignable ≡ true) same (guard-eq-ok _ _ e₁₀);
        role_tenant =
            subst (λ (x : Role). role_in_tenant x.tenant_id a.tenant_id ≡ true) same
              (guard-eq-ok _ _ e₁₁);
        permitted = subst (λ (x : Role). check_sensitive privileged x a ≡ ok tt) same e₁₂;
      }

  -- What the assignment of `role` as the binding `b` has checked, and what it leaves.
  pub record IsAssigned (privileged : Option PrivilegedGuard) (a : Assignment) (st : State)
      (b : RoleBinding) (st' : State) : Type 0 where
    pub role : (r : Role) × IsAssignable privileged a r
    pub before :
        (bs : List RoleBinding) × (find_active_for_subject a.identity_id a.tenant_id now st.items
          ≡ ok bs)
        × (any (gives ports now a) bs ≡ false)
        × StaysSeparated a (bs ++ b ∷ []) ports.sod
    pub identity : b.identity_id ≡ a.identity_id
    pub gives_role : b.role_id ≡ a.role_id
    pub tenant : b.tenant_id ≡ a.tenant_id
    pub scope : b.scope ≡ a.scope
    pub active : b.status ≡ RoleBindingStatus.active
    pub asked : IsAsked a now b.args
    pub kept : IsStored st'.items
    pub stored : get b.id st'.items ≡ ok (some b)
    pub others : (n : ℕ) → n == b.id ≡ false → get n st'.items ≡ get n st.items

  -- On a repository that keeps valid copies, an assignment that returns has checked its identity,
  -- tenant, Membership and Role, and the guard of a sensitive Role; it found no active binding of the
  -- same Role and scope; it stores one new active binding of the asked identity, tenant, Role and scope, valid
  -- from now until the asked end, with the asked source, granting identity and stripped justification, and changes no other;
  -- and with that binding behind the active ones the static separation of duties reports nothing.
  pub assign_role-IsAssigned :
      (privileged : Option PrivilegedGuard) (new_id : ℕ) (a : Assignment) (st : State)
      {b : RoleBinding} {st' : State}
      → IsStored st.items
      → assign_role ports now privileged new_id a st ≡ ok (b, st')
      → (b.id ≡ new_id) × IsAssigned privileged a st b st'
  unfolding assign_role
  assign_role-IsAssigned privileged new_id a st {b} {st'} s h =
      let (role, e, h₁) = >>=-eq-ok (require_assignable ports now privileged a) _ h in
      let (c, e₂, h₂) =
        >>=-eq-ok (map_err authorization (bind_role ports now new_id a st.items)) _ h₁ in
      let (bs, found, alone, duties, made) =
        bind_role-ok new_id a st.items (map_err-eq-ok _ _ e₂) in
      let (v, n, i, r, t, sc, act, asked) = create-IsValid new_id a now made in
      let (same, kept, here, there, _) = save_binding-ok c st s v h₂ in
      subst (λ (x : RoleBinding). (x.id ≡ new_id) × IsAssigned privileged a st x st') (sym same)
        (
          n,
          record {
            role = (role, require_assignable-ok privileged a e);
            before = (bs, found, alone, check_duties-StaysSeparated a bs (saved c) r duties);
            identity = i;
            gives_role = r;
            tenant = t;
            scope = sc;
            active = act;
            asked = asked;
            kept = kept;
            stored = here;
            others = there;
          },
        )
