-- ===== src/Authentication/Memory.antt =====
-- src/pyiamkit/authentication/adapters/memory.py: the in-memory repositories.
pub mod Credentials
pub mod Sessions
pub mod Factors
