-- ===== src/Authorization/Role.antt =====
-- src/pyiamkit/authorization/domain/role.py: the Role aggregate. A method returns the changed
-- aggregate or raises; every check stands before the first write. A set is a list in the order of
-- insertion.
pub mod Laws
use Prim.Native.String.{String}
use pyiamkit.Prelude.{
  ℕ, suc, Bool, true, false, not, ◌&&◌, Option, none, some, List, [], ◌∷◌, ◌++◌, Result, ok, ◌>>=◌,
  ◌>>◌, guard, Text, strip, length, leb, ◌==◌, contains, add, remove, nat_eq, if◌then◌else◌,
}
use pyiamkit.Shared.{DateTime, DomainEvent, MetaValue, id_or_null, require_utc}
use pyiamkit.Authorization.Values.{
  RoleStatus, RoleType, PermissionCode, permission_eq, AuthorizationCatalogEventType,
  AuthorizationError, value_error, invalid_role_name, role_inactive, permission_already_assigned,
  permission_not_assigned, role_hierarchy, cycle, role_created, role_disabled, role_parent_added,
  role_parent_removed, role_permission_added, role_permission_removed, role_sensitivity_changed,
  role_assignability_changed,
}

-- The keyword arguments of `__init__`.
pub record RoleArgs : Type 0 where
  pub id : ℕ
  pub version : ℕ
  pub name : Text
  pub role_type : RoleType
  pub status : RoleStatus
  pub tenant_id : Option ℕ
  pub assignable : Bool
  pub sensitive : Bool
  pub permissions : List PermissionCode
  pub parent_role_ids : List ℕ
  pub created_at : DateTime
  pub updated_at : DateTime

pub record Role : Type 0 where
  pub args : RoleArgs
  pub open args use *
  pub pending_events : List (DomainEvent AuthorizationCatalogEventType)

abbrev pub RoleResult : Type 0
RoleResult = Result AuthorizationError Role

-- `role_type.value`.
abbrev role_type_value : RoleType → String
role_type_value RoleType.system = "system"
role_type_value RoleType.tenant = "tenant"
role_type_value RoleType.business = "business"
role_type_value RoleType.technical = "technical"

-- The event of `_record`, with the metadata of the call behind the role's own.
abbrev pub event :
    AuthorizationCatalogEventType
    → DateTime
    → List (String × MetaValue)
    → RoleArgs
    → DomainEvent AuthorizationCatalogEventType
event kind at metadata r = record {
  event_type = kind;
  occurred_at = at;
  metadata =
      ("role_id", MetaValue.id r.id)
      ∷ ("role_type", MetaValue.label (role_type_value r.role_type))
      ∷ ("tenant_id", id_or_null r.tenant_id)
      ∷ metadata;
}

unfoldable pub normalize_name : Text → Result AuthorizationError Text
normalize_name value = do
  let name = strip value
  guard (leb 1 (length name) && leb (length name) 255) invalid_role_name
  ok name

-- `__init__`.
unfoldable pub init : RoleArgs → RoleResult
unfolding normalize_name
init r = do
  require_utc value_error r.created_at
  require_utc value_error r.updated_at
  name ← normalize_name r.name
  ok (record { args = record r { name = name }; pending_events = [] })

unfoldable pub rehydrate : RoleArgs → RoleResult
unfolding init
rehydrate = init

-- `RoleId.new()` is the argument `new_id`.
unfoldable pub create : ℕ → Text → RoleType → DateTime → Option ℕ → Bool → Bool → RoleResult
unfolding init
create new_id name role_type created tenant assignable sensitive = do
  r ← init (record {
    id = new_id;
    version = 0;
    name = name;
    role_type = role_type;
    status = RoleStatus.active;
    tenant_id = tenant;
    assignable = assignable;
    sensitive = sensitive;
    permissions = [];
    parent_role_ids = [];
    created_at = created;
    updated_at = created;
  })
  ok (record r { pending_events = r.pending_events ++ event role_created created [] r.args ∷ [] })

abbrev pub is_active : RoleStatus → Bool
is_active RoleStatus.active = true
is_active RoleStatus.disabled = false

-- `_require_active` and `_require_utc`, which open every method.
unfoldable pub require_open : DateTime → Role → Result AuthorizationError (Unit {0})
require_open at r = do guard (is_active r.status) (role_inactive r.id); require_utc value_error at

-- The assignments of a method, then `_touch(at)` and `_record(kind, at, metadata)`.
abbrev pub changed :
    AuthorizationCatalogEventType → DateTime → List (String × MetaValue) → RoleArgs → Role → Role
changed kind at metadata a r =
    let args = record a { version = suc a.version; updated_at = at } in
    record { args = args; pending_events = r.pending_events ++ event kind at metadata args ∷ [] }

abbrev bool_eq : Bool → Bool → Bool
bool_eq true b = b
bool_eq false b = not b

unfoldable pub add_parent_role : ℕ → DateTime → Role → RoleResult
unfolding require_open
add_parent_role parent at r = do
  require_open at r
  guard (not (parent == r.id)) (role_hierarchy (cycle r.id parent))
  ok (
      if contains parent r.parent_role_ids
      then r
      else changed role_parent_added at (("parent_role_id", MetaValue.id parent) ∷ [])
          (record (r.args) { parent_role_ids = add parent r.parent_role_ids }) r)

unfoldable pub remove_parent_role : ℕ → DateTime → Role → RoleResult
unfolding require_open
remove_parent_role parent at r = do
  require_open at r
  ok (
      if contains parent r.parent_role_ids
      then changed role_parent_removed at (("parent_role_id", MetaValue.id parent) ∷ [])
          (record (r.args) { parent_role_ids = remove parent r.parent_role_ids }) r
      else r)

unfoldable pub add_permission : PermissionCode → DateTime → Role → RoleResult
unfolding require_open
add_permission code at r = do
  require_open at r
  guard (not (contains code r.permissions)) (permission_already_assigned code)
  ok (
      changed role_permission_added at (("permission", MetaValue.text code.value) ∷ [])
        (record (r.args) { permissions = add code r.permissions }) r)

unfoldable pub remove_permission : PermissionCode → DateTime → Role → RoleResult
unfolding require_open
remove_permission code at r = do
  require_open at r
  guard (contains code r.permissions) (permission_not_assigned code)
  ok (
      changed role_permission_removed at (("permission", MetaValue.text code.value) ∷ [])
        (record (r.args) { permissions = remove code r.permissions }) r)

unfoldable pub disable : DateTime → Role → RoleResult
unfolding require_open
disable at r = do
  require_open at r
  ok (changed role_disabled at [] (record (r.args) { status = RoleStatus.disabled }) r)

unfoldable pub set_sensitive : Bool → DateTime → Role → RoleResult
unfolding require_open
set_sensitive value at r = do
  require_open at r
  ok (
      if bool_eq r.sensitive value
      then r
      else changed role_sensitivity_changed at (("sensitive", MetaValue.flag value) ∷ [])
          (record (r.args) { sensitive = value }) r)

unfoldable pub set_assignable : Bool → DateTime → Role → RoleResult
unfolding require_open
set_assignable value at r = do
  require_open at r
  ok (
      if bool_eq r.assignable value
      then r
      else changed role_assignability_changed at (("assignable", MetaValue.flag value) ∷ [])
          (record (r.args) { assignable = value }) r)

-- `pull_events`: the events, and the aggregate without them.
unfoldable pub pull_events : Role → List (DomainEvent AuthorizationCatalogEventType) × Role
pull_events r = (r.pending_events, record r { pending_events = [] })
