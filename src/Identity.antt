-- ===== src/Identity.antt =====
-- src/pyiamkit/identity: the Identity aggregate, its repository and its service.
pub mod Values
pub mod Creation
pub mod Aggregate
pub mod Memory
pub mod Service
