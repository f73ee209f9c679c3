-- ===== src/Authorization/Governance/Registered.antt =====
-- Where a registered constraint is listed.
use pyiamkit.Prelude.{
  ℕ, ◌≡◌, refl, ap, ◌∙◌, subst, Option, none, some, [], ◌∷◌, ◌++◌, ok, ok_inj, insert_fresh, insert,
  filter-snoc, >>=-eq-ok, or_raise, or_raise-eq-ok, ◌&&◌, lookup, values, filter, if◌then◌else◌,
  Text, Unicode, arith,
}
use pyiamkit.Shared.{DateTime}
use pyiamkit.Authorization.Values.{PermissionCode, permission_beq, Permission, parse}
use pyiamkit.Authorization.Memory.Rules.{
  Catalog, get_permission, applies_in, constraint_id, is_for, save_constraint, list_for,
}
use pyiamkit.Authorization.Governance.Registration.{
  State, Limit, limit_event, rule_event, make_constraint, require_permission, register_constraint,
}
use pyiamkit.Authorization.Governance.{AuthorizationConstraint}

-- The listing condition of a constraint, by what its registration was given.
abbrev pub Listing : PermissionCode → Option ℕ → AuthorizationConstraint → Type 0
Listing wanted tenant rule =
    (code : PermissionCode) (t : ℕ)
    → is_for code t rule ≡ (permission_beq wanted code && applies_in t tenant)

pub make_constraint-kept :
    (limit : Limit) (new_id : ℕ) (wanted : PermissionCode) (tenant : Option ℕ)
    {rule : AuthorizationConstraint}
    → make_constraint limit new_id wanted tenant ≡ ok rule
    → (constraint_id rule ≡ new_id) × Listing wanted tenant rule
unfolding make_constraint
make_constraint-kept (Limit.maximum_of a m) new_id wanted tenant h =
    (ground arith, λ code t. ground arith)
make_constraint-kept (Limit.value_of a v) new_id wanted tenant h =
    (ground arith, λ code t. ground arith)
make_constraint-kept (Limit.assurance_of l m) new_id wanted tenant h =
    (ground arith, λ code t. ground arith)

-- What is said of a constraint that is registered for `wanted`.
abbrev Listed :
    PermissionCode
    → Limit
    → Option ℕ
    → ℕ
    → DateTime
    → State
    → AuthorizationConstraint
    → State
    → Type 0
Listed wanted limit tenant new_id now st rule st' =
    ((code : PermissionCode) (t : ℕ)
      → list_for code t st'.constraints
        ≡ list_for code t st.constraints
          ++ (if permission_beq wanted code && applies_in t tenant then rule ∷ [] else []))
    × (st'.sod ≡ st.sod)
    × (st'.published ≡ st.published ++ rule_event (limit_event limit) new_id tenant now ∷ [])

saved-Listed :
    (wanted : PermissionCode) (limit : Limit) (tenant : Option ℕ) (new_id : ℕ) (now : DateTime)
    (st : State) (rule : AuthorizationConstraint)
    → (constraint_id rule ≡ new_id) × Listing wanted tenant rule
    → lookup new_id st.constraints ≡ none
    → Listed wanted limit tenant new_id now st rule (record st {
      constraints = save_constraint rule st.constraints;
      published =
          st.published ++ rule_event (limit_event limit) (constraint_id rule) tenant now ∷ [];
    })
unfolding save_constraint list_for
saved-Listed wanted limit tenant new_id now st rule (e, listing) fresh = (
  λ code t.
      ap (filter (is_for code t)) (
        insert_fresh (constraint_id rule) rule st.constraints
          (ap (λ n. lookup n st.constraints) e ∙ fresh))
      ∙ filter-snoc (is_for code t) rule (values st.constraints)
      ∙ ap (λ b. filter (is_for code t) (values st.constraints) ++ (if b then rule ∷ [] else []))
          (listing code t),
  refl,
  ap (λ n. st.published ++ rule_event (limit_event limit) n tenant now ∷ []) e,
)

-- A constraint that is registered under a new identifier is listed from then on, behind the others,
-- for the permission that its text names and the tenants that it applies in, and for no other; the
-- permission is one of the catalog; the rules of separation of duties stay as they are; and one event
-- is published.
pub register_constraint-listed :
    (u : Unicode) (permissions : Catalog) (limit : Limit) (permission : Text) (tenant : Option ℕ)
    (new_id : ℕ) (now : DateTime) (st : State) {rule : AuthorizationConstraint} {st' : State}
    → lookup new_id st.constraints ≡ none
    → register_constraint u permissions limit permission tenant new_id now st ≡ ok (rule, st')
    → (wanted : PermissionCode) × (known : Permission) × (parse u permission ≡ ok wanted)
      × (get_permission wanted permissions ≡ some known)
      × ((code : PermissionCode) (t : ℕ)
          → list_for code t st'.constraints
            ≡ list_for code t st.constraints
              ++ (if permission_beq wanted code && applies_in t tenant then rule ∷ [] else []))
      × (st'.sod ≡ st.sod)
      × (st'.published ≡ st.published ++ rule_event (limit_event limit) new_id tenant now ∷ [])
unfolding register_constraint require_permission
register_constraint-listed u permissions limit permission tenant new_id now st {rule} {st'} fresh
      h =
    let (wanted, p, h₁) = >>=-eq-ok (require_permission u permissions permission) _ h in
    let (code, q, p₁) = >>=-eq-ok (parse u permission) _ p in
    let (known, g, p₂) = >>=-eq-ok (or_raise (get_permission code permissions) _) _ p₁ in
    let same : code ≡ wanted = ok_inj p₂ in
    let (made, e, h₂) = >>=-eq-ok (make_constraint limit new_id wanted tenant) _ h₁ in
    let (listed, kept, events) =
      subst
        (λ (x : AuthorizationConstraint × State). Listed wanted limit tenant new_id now st x.0 x.1)
        (ok_inj h₂)
        (saved-Listed wanted limit tenant new_id now st made
          (make_constraint-kept limit new_id wanted tenant e) fresh) in
    (
      wanted,
      known,
      q ∙ ap ok same,
      subst (λ x. get_permission x permissions ≡ some known) same (or_raise-eq-ok _ _ g),
      listed,
      kept,
      events,
    )

-- What the registration of a constraint has read and saved where it returns.
pub register_constraint-saved :
    (u : Unicode) (permissions : Catalog) (limit : Limit) (permission : Text) (tenant : Option ℕ)
    (new_id : ℕ) (now : DateTime) (st : State) {rule : AuthorizationConstraint} {st' : State}
    → register_constraint u permissions limit permission tenant new_id now st ≡ ok (rule, st')
    → (wanted : PermissionCode) × (parse u permission ≡ ok wanted)
      × Listing wanted tenant rule
      × (st'.constraints ≡ insert new_id rule st.constraints)
unfolding register_constraint require_permission save_constraint
register_constraint-saved u permissions limit permission tenant new_id now st {rule} {st'} h =
    let (wanted, p, h₁) = >>=-eq-ok (require_permission u permissions permission) _ h in
    let (code, q, p₁) = >>=-eq-ok (parse u permission) _ p in
    let (known, g, p₂) = >>=-eq-ok (or_raise (get_permission code permissions) _) _ p₁ in
    let (made, e, h₂) = >>=-eq-ok (make_constraint limit new_id wanted tenant) _ h₁ in
    let (same, listing) = make_constraint-kept limit new_id wanted tenant e in
    (
      wanted,
      q ∙ ap ok (ok_inj p₂),
      subst (λ (x : AuthorizationConstraint × State). Listing wanted tenant x.0) (ok_inj h₂)
          listing,
      subst
          (λ (x : AuthorizationConstraint × State).
            x.1.constraints ≡ insert new_id x.0 st.constraints)
          (ok_inj h₂) (ap (λ n. insert n made st.constraints) same),
    )
