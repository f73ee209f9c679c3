-- ===== src/Authorization.antt =====
-- src/pyiamkit/authorization: roles, their bindings, governance rules and the decision engine.
pub mod Values
pub mod Role
pub mod RoleBinding
pub mod Hierarchy
pub mod Requests
pub mod Governance
pub mod Decisions
pub mod Engine
pub mod Memory
pub mod Assignment
