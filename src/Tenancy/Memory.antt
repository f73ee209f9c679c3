-- ===== src/Tenancy/Memory.antt =====
-- src/pyiamkit/tenancy/adapters/memory.py: the in-memory repositories of tenants and of memberships.
pub mod Tenants
pub mod Memberships
