-- ===== src/Tenancy.antt =====
-- src/pyiamkit/tenancy: tenants and the memberships of identities in them.
pub mod Values
pub mod Membership
pub mod Tenant
pub mod Memory
