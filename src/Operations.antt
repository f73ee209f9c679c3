-- ===== src/Operations.antt =====
-- src/pyiamkit/operations: the cache of decisions, the versions of the security state, the revocation
-- markers, and the runtime that puts them in front of the authorization engine.
pub mod State
pub mod Cache
pub mod Revocation
pub mod Effects
pub mod Metadata
pub mod Mutations
pub mod Checks
pub mod Runtime
