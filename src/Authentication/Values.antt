-- ===== src/Authentication/Values.antt =====
-- src/pyiamkit/authentication/domain: value objects, events and errors, and the rank of an assurance
-- level, which domain/session.py and authorization/governance.py each define.
use pyiamkit.Prelude.{ℕ, Text}

pub data AssuranceLevel : Type 0 where
  aal1 aal2 aal3 : AssuranceLevel

pub data AuthenticationMethod : Type 0 where
  password api_key certificate passkey oidc saml external : AuthenticationMethod

pub data SessionStatus : Type 0 where
  active revoked expired : SessionStatus

pub data CredentialStatus : Type 0 where
  active revoked expired : CredentialStatus

pub data CredentialType : Type 0 where
  password api_key certificate passkey client_secret external : CredentialType

abbrev pub assurance_rank : AssuranceLevel → ℕ
assurance_rank AssuranceLevel.aal1 = 1
assurance_rank AssuranceLevel.aal2 = 2
assurance_rank AssuranceLevel.aal3 = 3

pub data MfaFactorType : Type 0 where
  totp : MfaFactorType

pub data MfaFactorStatus : Type 0 where
  pending active revoked : MfaFactorStatus

pub data AuthenticationEventType : Type 0 where
  credential_created credential_revoked credential_expired : AuthenticationEventType
  session_opened session_touched session_revoked session_expired : AuthenticationEventType
  session_stepped_up mfa_factor_created mfa_factor_activated : AuthenticationEventType
  mfa_factor_verified mfa_factor_revoked : AuthenticationEventType

-- The classes of errors.py, and `ValueError`. The message texts are left out.
pub data AuthenticationError : Type 0 where
  value_error : AuthenticationError
  invalid_credential invalid_session invalid_mfa_factor : AuthenticationError
  invalid_credential_transition : CredentialStatus → AuthenticationError
  invalid_session_transition : SessionStatus → AuthenticationError
  invalid_mfa_factor_transition : MfaFactorStatus → AuthenticationError
  credential_not_found session_not_found mfa_factor_not_found : ℕ → AuthenticationError
  credential_already_exists mfa_secret_unavailable : Text → AuthenticationError
  authentication_subject_inactive mfa_replay_detected : ℕ → AuthenticationError
  mfa_factor_ownership_mismatch : ℕ → ℕ → AuthenticationError
  mfa_verification_failed : AuthenticationError
