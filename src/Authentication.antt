-- ===== src/Authentication.antt =====
-- src/pyiamkit/authentication: assurance levels, sessions and credentials.
pub mod Values
pub mod Context
pub mod Session
pub mod Credential
pub mod MfaFactor
pub mod Memory
pub mod Service
pub mod Mfa
