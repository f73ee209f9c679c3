-- ===== src/Authorization/Values.antt =====
-- src/pyiamkit/authorization/domain: value objects, event types and errors.
use pyiamkit.Prelude.{
  ℕ, ◌≡◌, ◌↔◌, Bool, true, false, not, ◌&&◌, ◌||◌, [], ◌∷◌, Result, ok, ◌>>◌, guard, Eq, Text,
  text_beq, text_beq_iff, strip, Unicode, leb, ◌==◌, arith,
}

pub data RoleStatus : Type 0 where
  active disabled : RoleStatus

pub data RoleType : Type 0 where
  system tenant business technical : RoleType

pub data RoleBindingStatus : Type 0 where
  active suspended revoked expired : RoleBindingStatus

pub data GrantSource : Type 0 where
  direct system migration : GrantSource

pub record PermissionCode : Type 0 where
  pub value : Text

abbrev pub permission_beq : PermissionCode → PermissionCode → Bool
permission_beq a b = text_beq a.value b.value

pub permission_beq_iff : (a b : PermissionCode) → (permission_beq a b ≡ true) ↔ (a ≡ b)
permission_beq_iff a b = ground (arith, text_beq_iff a.value b.value)

instance abbrev pub permission_eq : Eq PermissionCode
permission_eq = record { beq = permission_beq; beq_iff = permission_beq_iff }

pub data AuthorizationCatalogEventType : Type 0 where
  permission_registered role_assignability_changed role_assigned : AuthorizationCatalogEventType
  role_binding_expired role_binding_reactivated : AuthorizationCatalogEventType
  role_binding_revoked role_binding_suspended : AuthorizationCatalogEventType
  role_created role_disabled role_parent_added : AuthorizationCatalogEventType
  role_parent_removed role_permission_added : AuthorizationCatalogEventType
  role_permission_removed role_sensitivity_changed : AuthorizationCatalogEventType

-- The four names of the events of governance.py.
pub data GovernanceEventType : Type 0 where
  constraint_registered minimum_assurance_registered : GovernanceEventType
  static_rule_registered dynamic_rule_registered : GovernanceEventType

-- `RoleHierarchyError` and its subclasses.
pub data RoleHierarchyError : Type 0 where
  cycle : ℕ → ℕ → RoleHierarchyError
  tenant_mismatch unavailable depth_exceeded : RoleHierarchyError

-- The other classes of errors.py, and `ValueError`. The message texts are left out.
pub data AuthorizationError : Type 0 where
  value_error : AuthorizationError
  invalid_permission_code invalid_role_name invalid_role_binding : AuthorizationError
  invalid_role_binding_transition : RoleBindingStatus → AuthorizationError
  permission_not_found permission_already_exists : PermissionCode → AuthorizationError
  role_not_found role_inactive role_not_assignable : ℕ → AuthorizationError
  role_already_exists role_tenant_mismatch : AuthorizationError
  role_binding_not_found : ℕ → AuthorizationError
  role_binding_already_exists : AuthorizationError
  permission_already_assigned permission_not_assigned : PermissionCode → AuthorizationError
  role_hierarchy : RoleHierarchyError → AuthorizationError
  static_sod_violation : ℕ → AuthorizationError
  invalid_governance_rule : AuthorizationError
  -- What an audit sink of the application raises.
  audit_failure : ℕ → AuthorizationError

-- `[a-z]` and `[a-z0-9_]`.
abbrev pub is_lower : ℕ → Bool
is_lower c = leb b'a' c && leb c b'z'

abbrev pub is_word : ℕ → Bool
is_word c = is_lower c || (leb b'0' c && leb c b'9') || c == b'_'

-- `_PERMISSION_PATTERN.fullmatch`, from inside a segment or before one, after a dot or not.
unfoldable pub scan : Bool → Bool → Text → Bool
scan false dotted [] = false
scan false dotted (c ∷ s) = is_lower c && scan true dotted s
scan true dotted [] = dotted
scan true dotted (c ∷ s) =
    (c == b'.' || is_word c) && scan (not (c == b'.')) (dotted || c == b'.') s

-- `PermissionCode(value)`.
unfoldable pub parse : Unicode → Text → Result AuthorizationError PermissionCode
parse u value = do
  let normalized = u.lower (strip value)
  guard (scan false false normalized) invalid_permission_code
  ok (record { value = normalized })

-- domain/permission.py
pub record Permission : Type 0 where
  pub code : PermissionCode
  pub description : Text
  pub sensitive : Bool

-- `Permission.__post_init__`.
unfoldable pub make_permission : PermissionCode → Text → Bool → Permission
make_permission code description sensitive = record {
  code = code;
  description = strip description;
  sensitive = sensitive;
}
