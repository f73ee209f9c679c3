-- ===== src/Tests.antt =====
-- Tests: the definitions on concrete data.
mod Data
mod Engine
mod Hierarchy
mod Links
mod Governance
mod Registration
mod Enforcement
mod Lifecycles
mod Sessions
mod Memory
mod Assignment
mod Ascii
mod Identity
mod Authentication
mod Operations
mod Runtime
