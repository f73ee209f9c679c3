-- ===== src/Authorization/Role/Laws.antt =====
-- What the methods of a Role keep and change.
use pyiamkit.Prelude.{
  ℕ, suc, ◌≤◌, ◌≡◌, strip_idem, List, ◌⊎◌, Bool, true, false, ◌||◌, [], ok, err, strip, length,
  length-append, contains, Distinct, nat_eq, add-Distinct, remove-Distinct, contains-add,
  contains-remove, remove-add, arith,
}
use pyiamkit.Shared.{DateTime, run, run-keep, is_utc}
use pyiamkit.Authorization.Values.{PermissionCode, permission_eq, permission_beq, role_inactive}
use pyiamkit.Authorization.Role.{
  Role, RoleArgs, RoleResult, init, rehydrate, is_active, add_parent_role, remove_parent_role,
  add_permission, remove_permission, disable, set_sensitive, set_assignable,
}

-- What `__init__` has checked of a Role, and what its methods keep of its two sets.
pub record IsValid (r : RoleArgs) : Type 0 where
  pub created_utc : is_utc r.created_at ≡ true
  pub updated_utc : is_utc r.updated_at ≡ true
  pub stripped : strip r.name ≡ r.name
  pub named : (1 ≤ length r.name) × (length r.name ≤ 255)
  pub permissions_distinct : Distinct r.permissions
  pub parents_distinct : Distinct r.parent_role_ids
  pub not_own_parent : contains r.id r.parent_role_ids ≡ false

-- The seven methods that change a Role.
pub data Call : Type 0 where
  adds_parent removes_parent : ℕ → Call
  adds_permission removes_permission : PermissionCode → Call
  disables : Call
  sets_sensitive sets_assignable : Bool → Call

abbrev pub call : Call → DateTime → Role → RoleResult
call (Call.adds_parent p) = add_parent_role p
call (Call.removes_parent p) = remove_parent_role p
call (Call.adds_permission c) = add_permission c
call (Call.removes_permission c) = remove_permission c
call Call.disables = disable
call (Call.sets_sensitive v) = set_sensitive v
call (Call.sets_assignable v) = set_assignable v

-- A method leaves the Role as it was, or makes one new version of it and records one event.
abbrev pub Counted : DateTime → Role → Role → Type 0
Counted at r r' =
    (r' ≡ r)
    ⊎ ((r'.version ≡ suc r.version)
        × (r'.updated_at ≡ at)
        × (length r'.pending_events ≡ suc (length r.pending_events)))

-- A method that returns was called on an active Role, at a moment in UTC; it does nothing or
-- makes exactly one version and one event, and keeps the Role's identifier, tenant and creation.
pub call-Counted :
    (c : Call) (at : DateTime) (r : Role) {r' : Role}
    → call c at r ≡ ok r'
    → (is_active r.status ≡ true)
      × (is_utc at ≡ true)
      × Counted at r r'
      × (r'.id ≡ r.id)
      × (r'.tenant_id ≡ r.tenant_id)
      × (r'.created_at ≡ r.created_at)
unfolding add_parent_role remove_parent_role add_permission remove_permission disable set_sensitive
    set_assignable
call-Counted (Call.adds_parent p) at r h = grind (arith, length-append)
call-Counted (Call.removes_parent p) at r h = grind (arith, length-append)
call-Counted (Call.adds_permission c) at r h = grind (arith, length-append)
call-Counted (Call.removes_permission c) at r h = grind (arith, length-append)
call-Counted Call.disables at r h = grind (arith, length-append)
call-Counted (Call.sets_sensitive v) at r h = grind (arith, length-append)
call-Counted (Call.sets_assignable v) at r h = grind (arith, length-append)

pub call-IsValid :
    (c : Call) (at : DateTime) (r : Role) {r' : Role}
    → IsValid r.args
    → call c at r ≡ ok r'
    → IsValid r'.args
unfolding add_parent_role remove_parent_role add_permission remove_permission disable set_sensitive
    set_assignable
call-IsValid (Call.adds_parent p) at r v h = ground (
  arith,
  add-Distinct p r.parent_role_ids v.parents_distinct,
  contains-add p r.id r.parent_role_ids,
)
call-IsValid (Call.removes_parent p) at r v h = ground (
  arith,
  remove-Distinct p r.parent_role_ids v.parents_distinct,
  contains-remove p r.id r.parent_role_ids v.parents_distinct,
)
call-IsValid (Call.adds_permission c) at r v h =
    ground (arith, add-Distinct c r.permissions v.permissions_distinct)
call-IsValid (Call.removes_permission c) at r v h =
    ground (arith, remove-Distinct c r.permissions v.permissions_distinct)
call-IsValid Call.disables at r v h = ground arith
call-IsValid (Call.sets_sensitive b) at r v h = ground arith
call-IsValid (Call.sets_assignable b) at r v h = ground arith

-- A disabled Role refuses every method.
pub call-disabled :
    (c : Call) (at : DateTime) (r : Role)
    → is_active r.status ≡ false
    → call c at r ≡ err (role_inactive r.id)
unfolding add_parent_role remove_parent_role add_permission remove_permission disable set_sensitive
    set_assignable
call-disabled (Call.adds_parent p) at r h = ground arith
call-disabled (Call.removes_parent p) at r h = ground arith
call-disabled (Call.adds_permission c) at r h = ground arith
call-disabled (Call.removes_permission c) at r h = ground arith
call-disabled Call.disables at r h = ground arith
call-disabled (Call.sets_sensitive v) at r h = ground arith
call-disabled (Call.sets_assignable v) at r h = ground arith

-- On a valid Role, `add_permission` returns only for a code that the Role did not have, and adds
-- exactly that code; where `remove_permission` of the same code then returns, the Role has the
-- permissions that it had.
pub permissions-call :
    (code other : PermissionCode) (at : DateTime) (r : Role) {r' r'' : Role}
    → IsValid r.args
    → add_permission code at r ≡ ok r'
    → remove_permission code at r' ≡ ok r''
    → (contains code r.permissions ≡ false)
      × (contains other r'.permissions
          ≡ (permission_beq other code || contains other r.permissions))
      × (r''.permissions ≡ r.permissions)
unfolding add_permission remove_permission
permissions-call code other at r v h k =
    ground (arith, contains-add code other r.permissions, remove-add code r.permissions)

pub init_rehydrates :
    (r : Role) → IsValid r.args → init r.args ≡ ok (record r { pending_events = [] })
unfolding init
init_rehydrates r v = ground arith

-- What the constructor has made of its arguments, it makes of its own result.
pub init_idem : (a : RoleArgs) {r : Role} → init a ≡ ok r → init r.args ≡ ok r
unfolding init
init_idem a h = ground (arith, strip_idem a.name)

-- The constructor makes a valid Role of arguments whose two sets are sets, and that name the Role
-- as no parent of its own.
role_init-IsValid :
    (a : RoleArgs) {r : Role}
    → Distinct a.permissions
    → Distinct a.parent_role_ids
    → contains a.id a.parent_role_ids ≡ false
    → init a ≡ ok r
    → IsValid r.args
unfolding init
role_init-IsValid a d e n h = ground (arith, strip_idem a.name)

run-IsValid :
    (cs : List (DateTime × Call)) (r : Role) → IsValid r.args → IsValid (run call cs r).args
run-IsValid cs r v =
    run-keep call (λ (x : Role). IsValid x.args) (λ c at x y p e. call-IsValid c at x p e) cs r v

-- Whatever methods are called on a Role that was made from two sets, and that is not among its own
-- parents: its permissions and its parents stay sets, it is never among its own parents, and it can be
-- stored and loaded: `_rehydrate` gives the same Role again, without its pending events.
pub role-rehydrates :
    (a : RoleArgs) {r : Role}
    → Distinct a.permissions
    → Distinct a.parent_role_ids
    → contains a.id a.parent_role_ids ≡ false
    → init a ≡ ok r
    → (cs : List (DateTime × Call))
    → Distinct (run call cs r).permissions
      × Distinct (run call cs r).parent_role_ids
      × (contains (run call cs r).id (run call cs r).parent_role_ids ≡ false)
      × (rehydrate (run call cs r).args ≡ ok (record (run call cs r) { pending_events = [] }))
unfolding rehydrate
role-rehydrates a {r} d e n h cs =
    let v = run-IsValid cs r (role_init-IsValid a d e n h) in
    (
      v.permissions_distinct,
      v.parents_distinct,
      v.not_own_parent,
      init_rehydrates (run call cs r) v,
    )
