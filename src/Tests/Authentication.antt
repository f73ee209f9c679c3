-- ===== src/Tests/Authentication.antt =====
-- A credential, a second factor and the services that use them.
use pyiamkit.Prelude.{
  ◌≡◌, refl, true, false, Option, none, some, List, [], ◌∷◌, Result, ok, err, strip, ℤ, pos, ◌==◌,
  ◌+◌,
}
use pyiamkit.Shared.{DateTime, after, run, up_to, before_end, id_text, hex_digits}
use pyiamkit.Shared.Stores
use pyiamkit.Shared.Stores.Laws.{IsStore, IsEntry}
use pyiamkit.Authentication.Values.{
  invalid_mfa_factor, CredentialStatus, CredentialType, MfaFactorStatus, MfaFactorType,
  SessionStatus, AuthenticationError,
}
use pyiamkit.Authentication.Context.{make_context}
use pyiamkit.Authentication.Credential.{Credential, CredentialArgs, active_at}
use pyiamkit.Authentication.Credential
use pyiamkit.Authentication.Credential.Lifecycle as CredentialLifecycle
use pyiamkit.Authentication.MfaFactor.{MfaFactor, MfaFactorArgs}
use pyiamkit.Authentication.MfaFactor
use pyiamkit.Authentication.MfaFactor.Lifecycle as FactorLifecycle
use pyiamkit.Authentication.Session.{Session}
use pyiamkit.Authentication.Session
use pyiamkit.Authentication.Memory.Sessions
use pyiamkit.Authentication.Memory.Sessions.{sessions}
use pyiamkit.Authentication.Memory.Factors
use pyiamkit.Authentication.Service.{ServiceError, State, require_session, save_session}
use pyiamkit.Authentication.Mfa.{
  TotpProvider, step_up_totp_session, accept_code, require_factor, rotate_session, save_factor,
  verify_code,
}
use pyiamkit.Authentication.Mfa.Rotation.{IsElevated}
use pyiamkit.Authentication.Mfa.StepUp.{Accepted, step_up_totp_session-IsElevated}
use pyiamkit.Tests.Data.{utc_at, noon, evening}
use pyiamkit.Tests.Sessions.{session}

abbrev credential_args : CredentialArgs
credential_args = record {
  id = 81;
  version = 0;
  identity_id = 5;
  type = CredentialType.password;
  status = CredentialStatus.active;
  reference = b'x' ∷ [];
  created_at = utc_at 1;
  updated_at = utc_at 1;
  valid_from = utc_at 1;
  valid_until = some evening;
  fingerprint = none;
  label = none;
  revoked_at = none;
  metadata = [];
}

abbrev credential : Credential
credential = record { args = credential_args; pending_events = [] }

abbrev credential_calls : List (DateTime × CredentialLifecycle.Call)
credential_calls =
    (noon, CredentialLifecycle.Call.expires) ∷ (evening, CredentialLifecycle.Call.revokes) ∷ []

credential-init : Credential.init credential_args ≡ ok credential
unfolding Credential.init strip
credential-init = refl

credential-rehydrates_example :
    (Credential.rehydrate (run CredentialLifecycle.call credential_calls credential).args
      ≡ ok (record (run CredentialLifecycle.call credential_calls credential) {
        pending_events = [];
      }))
    × ((run CredentialLifecycle.call credential_calls credential).identity_id ≡ 5)
    × ((run CredentialLifecycle.call credential_calls credential).reference ≡ b'x' ∷ [])
    × (active_at noon (run CredentialLifecycle.call credential_calls credential).args ≡ true
        → (Credential.is_active_status CredentialStatus.active ≡ true)
          × (up_to (utc_at 1) noon ≡ true)
          × (before_end noon (some evening) ≡ true))
credential-rehydrates_example =
    CredentialLifecycle.credential-rehydrates credential_args credential-init credential_calls noon

abbrev factor_args : MfaFactorArgs
factor_args = record {
  id = 71;
  version = 1;
  identity_id = 5;
  type = MfaFactorType.totp;
  status = MfaFactorStatus.active;
  secret_reference = b'x' ∷ [];
  created_at = utc_at 1;
  updated_at = utc_at 2;
  label = none;
  activated_at = some (utc_at 2);
  revoked_at = none;
  last_verified_at = some (utc_at 2);
  last_accepted_counter = some (pos 7);
}

abbrev factor : MfaFactor
factor = record { args = factor_args; pending_events = [] }

abbrev verify : FactorLifecycle.Call
verify = FactorLifecycle.Call.verifies (pos 9)

abbrev used_factor : MfaFactor
used_factor = after factor (FactorLifecycle.call verify noon factor)

factor_used : FactorLifecycle.call verify noon factor ≡ ok used_factor
unfolding MfaFactor.record_verification MfaFactor.accept_counter
factor_used = refl

accepted-refused_example :
    (e : AuthenticationError) × (FactorLifecycle.call verify evening
        (run FactorLifecycle.call [] used_factor)
      ≡ err e)
accepted-refused_example =
    FactorLifecycle.accepted-refused verify verify (pos 9) (pos 9) noon evening factor refl
      factor_used [] refl refl

-- The factor was made at the moment 1; a revocation at the moment 0 cannot be stored.
abbrev early_factor : MfaFactor
early_factor = after factor (FactorLifecycle.call FactorLifecycle.Call.revokes (utc_at 0) factor)

factor_revoked :
    FactorLifecycle.call FactorLifecycle.Call.revokes (utc_at 0) factor ≡ ok early_factor
unfolding MfaFactor.revoke
factor_revoked = refl

factor-init : MfaFactor.init factor_args ≡ ok factor
unfolding MfaFactor.init strip
factor-init = refl

call-rehydrate_example : MfaFactor.rehydrate early_factor.args ≡ err invalid_mfa_factor
call-rehydrate_example =
    FactorLifecycle.call-rehydrate FactorLifecycle.Call.revokes (utc_at 0) factor
      (FactorLifecycle.init-IsValid factor_args factor-init) factor_revoked

session-IsEntry : IsEntry sessions (61, session)
unfolding Sessions.copy Session.rehydrate Session.init
session-IsEntry = record { key = refl; same = refl }

abbrev one_session : Sessions.Items
one_session = (61, session) ∷ []

one_session-IsStore : IsStore sessions one_session
one_session-IsStore = record { distinct = ((λ i. i), tt); entries = (session-IsEntry, tt) }

abbrev state : State
state = record {
  credentials = [];
  sessions = one_session;
  factors = (71, factor) ∷ [];
  published = [];
  deleted = [];
}

-- A provider for which every code is that of the next counter.
abbrev next_counter : Option ℤ → ℤ
next_counter (some (pos n)) = pos (n + 1)
next_counter _ = pos 0

abbrev totp : TotpProvider
totp = record {
  begin_enrollment = λ n t. ok (record { secret_reference = t; provisioning_uri = t });
  verify = λ r code at last. ok (some (next_counter last));
}

abbrev elevation : Result ServiceError Session × State
elevation = step_up_totp_session totp 62 61 71 [] noon state

abbrev elevated : Session
elevated = elim elevation.0 [ ok e ↦ e | err e ↦ session ]

elevation-ok : step_up_totp_session totp 62 61 71 [] noon state ≡ (ok elevated, elevation.1)
unfolding step_up_totp_session accept_code require_session require_factor rotate_session save_factor
    save_session verify_code Sessions.get Sessions.copy Sessions.save Factors.get Factors.copy
    Factors.save Session.rehydrate Session.init Session.is_active Session.revoke Session.pull_events
    Session.open_session MfaFactor.rehydrate MfaFactor.init MfaFactor.record_verification
    MfaFactor.accept_counter MfaFactor.pull_events make_context strip id_text hex_digits
    Stores.get_copy Stores.save_copy
elevation-ok = refl

step_up_totp_session-IsElevated_example :
    (s : Session) × (f : MfaFactor) × Accepted totp 61 71 [] noon state s f
    × IsElevated s noon elevated
    × (Sessions.get 62 elevation.1.sessions ≡ ok (some elevated))
    × (61 == 62 ≡ false
        → (b : Session) × (Sessions.get 61 elevation.1.sessions ≡ ok (some b))
          × (b.status ≡ SessionStatus.revoked))
step_up_totp_session-IsElevated_example =
    step_up_totp_session-IsElevated totp 62 61 71 [] noon state one_session-IsStore elevation-ok
