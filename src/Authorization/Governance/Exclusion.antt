-- ===== src/Authorization/Governance/Exclusion.antt =====
-- What a registered rule of mutually exclusive Roles brings about.
use pyiamkit.Prelude.{
  ℕ, ◌≡◌, sym, ap, ◌∙◌, subst, inl, inr, true, false, Option, some, List, [], ◌∷◌, ◌++◌, Result, ok,
  ok_inj, In-insert_new, In-insert_other, err, >>=-eq-ok, or_raise-eq-ok, Result-cases, ◌==◌,
  insert, values, filter-In, In, All, All-In, Text, Unicode, arith,
}
use pyiamkit.Shared.{DateTime}
use pyiamkit.Shared.Stores.Laws.{In-values}
use pyiamkit.Authorization.Values.{AuthorizationError}
use pyiamkit.Authorization.RoleBinding.{RoleBinding}
use pyiamkit.Authorization.Hierarchy.{RoleRepository, edge_allowed}
use pyiamkit.Authorization.Role.{Role}
use pyiamkit.Authorization.Governance.Duties.{
  Holds, IsSeparated, ensure-detect, detect_runtime-IsSeparated,
}
use pyiamkit.Authorization.Memory.Rules.{
  Catalog, applies_in, list_static, SodStore, save_static, save_dynamic,
}
use pyiamkit.Authorization.Governance.Registration.{
  State, Limit, make_constraint, make_exclusive, make_distinct_actor, require_permission,
  require_role, register_constraint, register_distinct_actor, register_exclusive,
}
use pyiamkit.Authorization.Governance.{
  AuthorizationConstraint, MutuallyExclusiveRolesRule, DistinctActorSodRule,
  ensure_assignment_allowed,
}

register_constraint-sod :
    (u : Unicode) (permissions : Catalog) (limit : Limit) (permission : Text) (tenant : Option ℕ)
    (new_id : ℕ) (now : DateTime) (st : State) {out : AuthorizationConstraint × State}
    → register_constraint u permissions limit permission tenant new_id now st ≡ ok out
    → out.1.sod ≡ st.sod
unfolding register_constraint
register_constraint-sod u permissions limit permission tenant new_id now st h =
    let (code, _, h₁) = >>=-eq-ok (require_permission u permissions permission) _ h in
    let (made, e, h₂) = >>=-eq-ok (make_constraint limit new_id code tenant) _ h₁ in
    sym (ap (λ (x : AuthorizationConstraint × State). x.1.sod) (ok_inj h₂))

register_distinct_actor-static :
    (u : Unicode) (permissions : Catalog) (permission name attribute : Text) (tenant : Option ℕ)
    (new_id : ℕ) (now : DateTime) (st : State) {out : DistinctActorSodRule × State}
    → register_distinct_actor u permissions permission name attribute tenant new_id now st ≡ ok out
    → out.1.sod.static ≡ st.sod.static
unfolding register_distinct_actor save_dynamic
register_distinct_actor-static u permissions permission name attribute tenant new_id now st h =
    let (code, _, h₁) = >>=-eq-ok (require_permission u permissions permission) _ h in
    let (made, e, h₂) = >>=-eq-ok (make_distinct_actor _) _ h₁ in
    sym (ap (λ (x : DistinctActorSodRule × State). x.1.sod.static) (ok_inj h₂))

-- What `register_mutually_exclusive_roles` has checked and saved where it returns.
pub record Exclusive (roles : RoleRepository) (first second : ℕ) (tenant : Option ℕ) (new_id : ℕ)
    (st : State) (rule : MutuallyExclusiveRolesRule) (st' : State) : Type 0 where
  pub first_role : Role
  pub second_role : Role
  pub first_stored : roles.get first ≡ some first_role
  pub second_stored : roles.get second ≡ some second_role
  pub tenants :
      (edge_allowed tenant first_role.tenant_id ≡ true)
      × (edge_allowed tenant second_role.tenant_id ≡ true)
  pub apart : first == second ≡ false
  pub same :
      (rule.first_role_id ≡ first) × (rule.second_role_id ≡ second) × (rule.tenant_id ≡ tenant)
  pub saved : st'.sod.static ≡ insert new_id rule st.sod.static

register_exclusive-Exclusive :
    (roles : RoleRepository) (name : Text) (first second : ℕ) (tenant : Option ℕ) (new_id : ℕ)
    (now : DateTime) (st : State) {rule : MutuallyExclusiveRolesRule} {st' : State}
    → register_exclusive roles name first second tenant new_id now st ≡ ok (rule, st')
    → Exclusive roles first second tenant new_id st rule st'
unfolding register_exclusive make_exclusive save_static require_role
register_exclusive-Exclusive roles name first second tenant new_id now st {rule} {st'} h =
    let (f, e₁, h₁) = >>=-eq-ok (require_role roles first) _ h in
    let (s, e₂, h₂) = >>=-eq-ok (require_role roles second) _ h₁ in
    record {
      first_role = f;
      second_role = s;
      first_stored = or_raise-eq-ok _ _ e₁;
      second_stored = or_raise-eq-ok _ _ e₂;
      tenants = ground arith;
      apart = ground arith;
      same = ground arith;
      saved = ground arith;
    }

-- A registration of any kind, with what its method is given.
pub data Registration : Type 0 where
  constraint : Limit → Text → Option ℕ → Registration
  distinct_actor : Text → Text → Text → Option ℕ → Registration
  exclusive : Text → ℕ → ℕ → Option ℕ → Registration

module _ (u : Unicode) (permissions : Catalog) (roles : RoleRepository) where
  abbrev after : {R : Type 0} → State → Result AuthorizationError (R × State) → State
  after st (ok (_, st')) = st'
  after st (err _) = st

  -- The state behind a registration, which may raise.
  abbrev pub register : Registration → ℕ → DateTime → State → State
  register (Registration.constraint l p t) n now st =
      after st (register_constraint u permissions l p t n now st)
  register (Registration.distinct_actor p name a t) n now st =
      after st (register_distinct_actor u permissions p name a t n now st)
  register (Registration.exclusive name f s t) n now st =
      after st (register_exclusive roles name f s t n now st)

  unfoldable pub run : List (ℕ × DateTime × Registration) → State → State
  run [] st = st
  run ((n, now, r) ∷ rest) st = run rest (register r n now st)

  register-kept :
      (r : Registration) (n k : ℕ) (now : DateTime) (st : State) (rule : MutuallyExclusiveRolesRule)
      → k == n ≡ false
      → In (k, rule) st.sod.static
      → In (k, rule) (register r n now st).sod.static
  unfolding register_constraint register_distinct_actor register_exclusive save_static save_dynamic
      make_exclusive
  register-kept (Registration.constraint l p t) n k now st rule o i =
      elim (Result-cases (register_constraint u permissions l p t n now st)) [
        | inl (out, e) ↦
            let same = register_constraint-sod u permissions l p t n now st e in
            rw e (subst (λ (x : SodStore). In (k, rule) x.static) (sym same) i)
        | inr (_, e) ↦ rw e i
      ]
  register-kept (Registration.distinct_actor p name a t) n k now st rule o i =
      elim (Result-cases (register_distinct_actor u permissions p name a t n now st)) [
        | inl (out, e) ↦
            let same = register_distinct_actor-static u permissions p name a t n now st e in
            rw e (subst (λ x. In (k, rule) x) (sym same) i)
        | inr (_, e) ↦ rw e i
      ]
  register-kept (Registration.exclusive name f s t) n k now st rule o i =
      elim (Result-cases (register_exclusive roles name f s t n now st)) [
        | inl ((made, st'), e) ↦
            let x = register_exclusive-Exclusive roles name f s t n now st e in
            rw e (
              subst (λ y. In (k, rule) y) (sym x.saved)
                (In-insert_other k n rule made st.sod.static o i))
        | inr (_, e) ↦ rw e i
      ]

  run-kept :
      (rs : List (ℕ × DateTime × Registration)) (k : ℕ) (st : State)
      (rule : MutuallyExclusiveRolesRule)
      → All (λ r. k == r.0 ≡ false) rs
      → In (k, rule) st.sod.static
      → In (k, rule) (run rs st).sod.static
  unfolding run
  run-kept [] k st rule o i = i
  run-kept ((n, now, r) ∷ rs) k st rule o i =
      run-kept rs k (register r n now st) rule o.1 (register-kept r n k now st rule o.0 i)

  -- A rule that two Roles exclude each other, once registered, holds from then on. Its Roles were
  -- stored, are two, and are global or of the rule's tenant. Whatever is registered later under other
  -- identifiers: an assignment that `ensure_assignment_allowed` lets pass by the rules that are listed
  -- for a tenant in which the rule applies leaves no subject with both Roles, be it by inheritance.
  pub registered-IsSeparated :
      (name : Text) (first second : ℕ) (tenant : Option ℕ) (new_id : ℕ) (now : DateTime)
      (st : State) {rule : MutuallyExclusiveRolesRule} {st' : State}
      → register_exclusive roles name first second tenant new_id now st ≡ ok (rule, st')
      → (later : List (ℕ × DateTime × Registration)) → All (λ r. new_id == r.0 ≡ false) later
      → (t : ℕ) → applies_in t tenant ≡ true
      → (current : RoleRepository) (max_depth : ℕ) (bs : List RoleBinding) (b : RoleBinding)
      → ensure_assignment_allowed current max_depth (list_static t (run later st').sod) b.role_id bs
        ≡ ok tt
      → Exclusive roles first second tenant new_id st rule st'
        × (¬ (Holds current (bs ++ b ∷ []) first × Holds current (bs ++ b ∷ []) second))
  unfolding list_static
  registered-IsSeparated name first second tenant new_id now st {rule} {st'} h later o t a current
        max_depth bs b allowed =
      let x = register_exclusive-Exclusive roles name first second tenant new_id now st h in
      let here : In (new_id, rule) st'.sod.static =
        subst (λ y. In (new_id, rule) y) (sym x.saved) (In-insert_new new_id rule st.sod.static) in
      let (f, s, same) = x.same in
      let listed =
        filter-In (λ (r : MutuallyExclusiveRolesRule). applies_in t r.tenant_id) rule
          (values (run later st').sod.static)
          (In-values new_id rule (run later st').sod.static (run-kept later new_id st' rule o here))
          (ap (applies_in t) same ∙ a) in
      let rules = list_static t (run later st').sod in
      let apart =
        All-In (IsSeparated current max_depth (bs ++ b ∷ [])) rule rules
          (detect_runtime-IsSeparated current max_depth rules (bs ++ b ∷ [])
            (ensure-detect current max_depth rules bs b allowed))
          listed in
      (
        x,
        λ (p, q). apart (
          subst (Holds current (bs ++ b ∷ [])) (sym f) p,
          subst (Holds current (bs ++ b ∷ [])) (sym s) q,
        ),
      )
