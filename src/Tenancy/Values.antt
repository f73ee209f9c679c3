-- ===== src/Tenancy/Values.antt =====
-- src/pyiamkit/tenancy/domain: statuses, scope, events and errors.
use pyiamkit.Prelude.{ℕ, Bool, ◌==◌}

pub data TenantStatus : Type 0 where
  pending active suspended disabled archived : TenantStatus

pub data MembershipStatus : Type 0 where
  pending active suspended expired revoked : MembershipStatus

pub record TenantScope : Type 0 where
  pub tenant_id : ℕ

-- `self.scope == other`, and `contains`.
abbrev pub scope_eq : TenantScope → TenantScope → Bool
scope_eq a b = a.tenant_id == b.tenant_id

pub data TenancyEventType : Type 0 where
  tenant_created tenant_activated tenant_suspended tenant_reactivated : TenancyEventType
  tenant_disabled tenant_archived : TenancyEventType
  membership_created membership_activated membership_suspended : TenancyEventType
  membership_reactivated membership_expired membership_revoked : TenancyEventType

-- The classes of errors.py, and `ValueError`. The message texts are left out.
pub data TenancyError : Type 0 where
  value_error : TenancyError
  tenant_not_found : ℕ → TenancyError
  membership_not_found : ℕ → ℕ → TenancyError
  invalid_tenant_transition : TenantStatus → TenancyError
  invalid_membership_transition : MembershipStatus → TenancyError
  tenant_inactive membership_inactive : TenancyError
  tenant_mismatch : ℕ → ℕ → TenancyError
  invalid_tenant invalid_membership : TenancyError
