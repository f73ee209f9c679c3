-- ===== src/Authentication/Mfa.antt =====
-- src/pyiamkit/authentication/mfa.py: MfaApplicationService, on the in-memory repositories. What was
-- saved before an exception stays saved. The provider of one-time codes is a parameter; the clock's
-- moment and the new identifiers are arguments.
pub mod Rotation
pub mod StepUp
use pyiamkit.Prelude.{
  ℕ, Bool, true, false, Option, none, some, List, [], ◌∷◌, ◌++◌, Result, ok, err, or_raise, map_err,
  Text, codes, ◌==◌, ℤ,
}
use pyiamkit.Prelude.Actions.{Action, ◌>>=◌, ◌>>◌, return, lift, require, on_error}
use pyiamkit.Shared.{DateTime, id_text}
use pyiamkit.Identity.Values.{IdentityStatus}
use pyiamkit.Authentication.Values.{
  AssuranceLevel, MfaFactorType, AuthenticationError, mfa_factor_not_found,
  mfa_factor_ownership_mismatch, mfa_verification_failed,
}
use pyiamkit.Authentication.Context.{AuthenticationContext, make_context}
use pyiamkit.Authentication.Session.{Session}
use pyiamkit.Authentication.Session
use pyiamkit.Authentication.MfaFactor.{MfaFactor, record_verification, is_active, is_pending}
use pyiamkit.Authentication.MfaFactor
use pyiamkit.Authentication.Memory.Factors
use pyiamkit.Authentication.Service.{
  ServiceError, authentication, runtime_error, State, Method, domain, publish,
  require_active_identity, require_session, save_session,
}

-- `TotpEnrollmentMaterial`, made by the provider.
pub record Material : Type 0 where
  pub secret_reference : Text
  pub provisioning_uri : Text

pub record TotpEnrollment : Type 0 where
  pub factor : MfaFactor
  pub uri : Text

-- The provider: `verify` gives the counter of a code that is right, and later than the last one.
pub record TotpProvider : Type 0 where
  pub begin_enrollment : ℕ → Text → Result AuthenticationError Material
  pub verify : Text → Text → DateTime → Option ℤ → Result AuthenticationError (Option ℤ)

abbrev delete_secret : Text → Method (Unit {0})
delete_secret reference st = (ok tt, record st { deleted = st.deleted ++ reference ∷ [] })

abbrev stored_factor : Result AuthenticationError Factors.Items → Method (Unit {0})
stored_factor (ok items) st = (ok tt, record st { factors = items })
stored_factor (err e) st = (err (authentication e), st)

abbrev put_factor : MfaFactor → Method (Unit {0})
put_factor f st = stored_factor (Factors.save f st.factors) st

abbrev get_factor : ℕ → Method (Option MfaFactor)
get_factor n st = domain (Factors.get n st.factors) st

-- `_save_factor`.
unfoldable pub save_factor : MfaFactor → Method MfaFactor
save_factor f = do
  let (events, pulled) = MfaFactor.pull_events f
  put_factor pulled
  publish events
  saved ← get_factor f.id
  lift (or_raise saved runtime_error)

-- `_require_factor`.
unfoldable pub require_factor : ℕ → Method MfaFactor
require_factor n = do
  found ← get_factor n
  lift (or_raise found (authentication (mfa_factor_not_found n)))

unfoldable pub factors_for_identity : ℕ → Method (List MfaFactor)
factors_for_identity identity st = domain (Factors.find_for_identity identity st.factors) st

unfoldable pub active_factors_for_identity : ℕ → Method (List MfaFactor)
active_factors_for_identity identity st =
    domain (Factors.find_active_for_identity identity st.factors) st

unfoldable pub revoke_factor : DateTime → ℕ → Method MfaFactor
unfolding require_factor save_factor
revoke_factor now n = do
  f ← require_factor n
  f' ← domain (MfaFactor.revoke now f)
  saved ← save_factor f'
  delete_secret saved.secret_reference
  return saved

-- `AAL3 if previous is AAL3 else AAL2`.
abbrev pub effective_assurance : AssuranceLevel → AssuranceLevel
effective_assurance AssuranceLevel.aal3 = AssuranceLevel.aal3
effective_assurance _ = AssuranceLevel.aal2

-- The arguments of the AuthenticationContext of the elevated session.
abbrev pub elevated_context : AuthenticationContext → MfaFactor → DateTime → AuthenticationContext
elevated_context previous f now = record previous {
  assurance_level = effective_assurance previous.assurance_level;
  mfa = true;
  mfa_verified_at = some now;
  mfa_factor_id = some (id_text f.id);
}

abbrev pub rotation_reason : Text
rotation_reason = codes "mfa step-up session rotation"

-- The second half of `step_up_totp_session`: the session is replaced.
unfoldable pub rotate_session : ℕ → Session → MfaFactor → DateTime → Method Session
unfolding save_session
rotate_session new_id s f now = do
  s' ← domain (Session.revoke (some rotation_reason) now s)
  closed ← save_session s'
  context ← domain (make_context (elevated_context s.context f now))
  elevated ← domain (Session.open_session new_id s.identity_id context now s.expires_at)
  save_session elevated

module _ (totp : TotpProvider) where
  -- `_verify_totp`.
  unfoldable pub verify_code : MfaFactor → Text → DateTime → Method ℤ
  verify_code f code at = do
    counter ← domain (totp.verify f.secret_reference code at f.last_accepted_counter)
    lift (or_raise counter (authentication mfa_verification_failed))

  unfoldable pub confirm_totp_enrollment : ℕ → Text → DateTime → Method MfaFactor
  unfolding require_factor verify_code save_factor
  confirm_totp_enrollment n code now = do
    f ← require_factor n
    require (is_pending f.status) (authentication mfa_verification_failed)
    counter ← verify_code f code now
    f' ← domain (MfaFactor.activate counter now f)
    save_factor f'

  unfoldable pub verify_totp : ℕ → Text → DateTime → Method MfaFactor
  unfolding require_factor verify_code save_factor
  verify_totp n code now = do
    f ← require_factor n
    require (is_active f.status) (authentication mfa_verification_failed)
    counter ← verify_code f code now
    f' ← domain (record_verification counter now f)
    save_factor f'

  -- The first half of `step_up_totp_session`: the session and the factor, which has accepted the
  -- code and is saved.
  unfoldable pub accept_code : ℕ → ℕ → Text → DateTime → Method (Session × MfaFactor)
  unfolding require_session require_factor verify_code save_factor
  accept_code session_id factor_id code now = do
    s ← require_session session_id
    f ← require_factor factor_id
    require (s.identity_id == f.identity_id)
        (authentication (mfa_factor_ownership_mismatch f.id s.identity_id))
    require (is_active f.status) (authentication mfa_verification_failed)
    live ← domain (Session.is_active now s)
    require live (authentication mfa_verification_failed)
    counter ← verify_code f code now
    f' ← domain (record_verification counter now f)
    saved ← save_factor f'
    return (s, f')

  unfoldable pub step_up_totp_session : ℕ → ℕ → ℕ → Text → DateTime → Method Session
  unfolding accept_code rotate_session
  step_up_totp_session new_id session_id factor_id code now = do
    (s, f) ← accept_code session_id factor_id code now
    rotate_session new_id s f now

  -- A factor that is not saved has its secret deleted.
  unfoldable pub begin_totp_enrollment :
      (ℕ → Option IdentityStatus) → ℕ → ℕ → Text → Option Text → DateTime → Method TotpEnrollment
  unfolding require_active_identity save_factor
  begin_totp_enrollment identities new_id identity account label now = do
    require_active_identity identities identity
    material ← domain (totp.begin_enrollment new_id account)
    f ←
        domain
          (MfaFactor.create new_id identity MfaFactorType.totp material.secret_reference now label)
    saved ← on_error (save_factor f) (delete_secret material.secret_reference)
    return (record { factor = saved; uri = material.provisioning_uri })
