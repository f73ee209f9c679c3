-- ===== src/Authentication/Service.antt =====
-- src/pyiamkit/authentication/application.py: AuthenticationApplicationService, on the in-memory
-- repositories. What was saved before an exception stays saved. The clock's moment and the new
-- identifiers are arguments; `identities` is what the identity repository answers.
pub mod Calls
pub mod Saving
pub mod Revocation
use pyiamkit.Prelude.{
  ℕ, Bool, Option, none, some, List, [], ◌∷◌, ◌++◌, Result, ok, err, or_raise, map_err, Text, strip,
  ◌==◌,
}
use pyiamkit.Prelude.Actions.{Action, ◌>>=◌, ◌>>◌, return, lift, require}
use pyiamkit.Shared.{DateTime, DomainEvent}
use pyiamkit.Identity.Values.{IdentityStatus}
use pyiamkit.Identity.Values
use pyiamkit.Authentication.Values.{
  AssuranceLevel, AuthenticationMethod, AuthenticationEventType, AuthenticationError,
  authentication_subject_inactive, credential_already_exists, credential_not_found,
  session_not_found,
}
use pyiamkit.Authentication.Context.{AuthenticationContext, make_context}
use pyiamkit.Authentication.Credential.{Credential, NewCredential}
use pyiamkit.Authentication.Credential
use pyiamkit.Authentication.Session.{Session}
use pyiamkit.Authentication.Session
use pyiamkit.Authentication.MfaFactor.{MfaFactor}
use pyiamkit.Authentication.Memory.Credentials
use pyiamkit.Authentication.Memory.Sessions
use pyiamkit.Authentication.Memory.Factors

-- The exceptions of the services' methods.
pub data ServiceError : Type 0 where
  identity_not_found : ℕ → ServiceError
  authentication : AuthenticationError → ServiceError
  runtime_error : ServiceError

-- The three repositories, the events that the sink was given, and the secrets that the TOTP provider
-- was told to delete.
pub record State : Type 0 where
  pub credentials : Credentials.Items
  pub sessions : Sessions.Items
  pub factors : Factors.Items
  pub published : List (DomainEvent AuthenticationEventType)
  pub deleted : List Text

abbrev pub Method : Type 0 → Type 0
Method A = Action State ServiceError A

-- A call of the domain or of a repository that reads.
abbrev pub domain : {A : Type 0} → Result AuthenticationError A → Method A
domain r = lift (map_err authentication r)

abbrev pub publish : List (DomainEvent AuthenticationEventType) → Method (Unit {0})
publish events st = (ok tt, record st { published = st.published ++ events })

-- What the repository says of its state.
abbrev stored_session : Result AuthenticationError Sessions.Items → Method (Unit {0})
stored_session (ok items) st = (ok tt, record st { sessions = items })
stored_session (err e) st = (err (authentication e), st)

abbrev put_session : Session → Method (Unit {0})
put_session s st = stored_session (Sessions.save s st.sessions) st

abbrev get_session : ℕ → Method (Option Session)
get_session n st = domain (Sessions.get n st.sessions) st

abbrev stored_credential : Result AuthenticationError Credentials.Items → Method (Unit {0})
stored_credential (ok items) st = (ok tt, record st { credentials = items })
stored_credential (err e) st = (err (authentication e), st)

abbrev put_credential : Credential → Method (Unit {0})
put_credential c st = stored_credential (Credentials.save c st.credentials) st

abbrev get_credential : ℕ → Method (Option Credential)
get_credential n st = domain (Credentials.get n st.credentials) st

-- `_save_session`.
unfoldable pub save_session : Session → Method Session
save_session s = do
  let (events, pulled) = Session.pull_events s
  put_session pulled
  publish events
  saved ← get_session s.id
  lift (or_raise saved runtime_error)

-- `_save_credential`.
unfoldable pub save_credential : Credential → Method Credential
save_credential c = do
  let (events, pulled) = Credential.pull_events c
  put_credential pulled
  publish events
  saved ← get_credential c.id
  lift (or_raise saved runtime_error)

-- `_require_credential` and `_require_session`.
unfoldable pub require_credential : ℕ → Method Credential
require_credential n = do
  found ← get_credential n
  lift (or_raise found (authentication (credential_not_found n)))

unfoldable pub require_session : ℕ → Method Session
require_session n = do
  found ← get_session n
  lift (or_raise found (authentication (session_not_found n)))

unfoldable pub revoke_credential : DateTime → ℕ → Method Credential
unfolding require_credential save_credential
revoke_credential now n = do
  c ← require_credential n
  c' ← domain (Credential.revoke now c)
  save_credential c'

unfoldable pub expire_credential : DateTime → ℕ → Method Credential
unfolding require_credential save_credential
expire_credential now n = do
  c ← require_credential n
  c' ← domain (Credential.expire now c)
  save_credential c'

unfoldable pub active_credentials : DateTime → ℕ → Method (List Credential)
active_credentials now identity st =
    domain (Credentials.find_active_for_identity identity now st.credentials) st

unfoldable pub touch_session : DateTime → ℕ → Method Session
unfolding require_session save_session
touch_session now n = do s ← require_session n; s' ← domain (Session.touch now s); save_session s'

unfoldable pub revoke_session : Option Text → DateTime → ℕ → Method Session
unfolding require_session save_session
revoke_session reason now n = do
  s ← require_session n
  s' ← domain (Session.revoke reason now s)
  save_session s'

unfoldable pub expire_session : DateTime → ℕ → Method Session
unfolding require_session save_session
expire_session now n = do s ← require_session n; s' ← domain (Session.expire now s); save_session s'

unfoldable pub active_sessions : DateTime → ℕ → Method (List Session)
active_sessions now identity st =
    domain (Sessions.find_active_for_identity identity now st.sessions) st

-- The loop of `revoke_all_sessions`.
unfoldable pub revoke_each : Option Text → DateTime → List Session → Method (List Session)
unfolding save_session
revoke_each reason now [] = return []
revoke_each reason now (s ∷ ss) = do
  s' ← domain (Session.revoke reason now s)
  saved ← save_session s'
  rest ← revoke_each reason now ss
  return (saved ∷ rest)

unfoldable pub revoke_all_sessions : Option Text → DateTime → ℕ → Method (List Session)
unfolding active_sessions revoke_each
revoke_all_sessions reason now identity = do
  active ← active_sessions now identity
  revoke_each reason now active

abbrev is_none : {A : Type 0} → Option A → Bool
is_none none = Bool.true
is_none (some a) = Bool.false

abbrev or_now : Option DateTime → DateTime → DateTime
or_now none now = now
or_now (some t) now = t

-- The keyword arguments of `open_session`, without the identity.
pub record NewSession : Type 0 where
  pub method : AuthenticationMethod
  pub assurance_level : AssuranceLevel
  pub mfa : Bool
  pub expires_at : DateTime
  pub authenticated_at : Option DateTime
  pub provider_id : Option Text
  pub device_id : Option Text
  pub network_zone : Option Text

module _ (identities : ℕ → Option IdentityStatus) where
  -- `_require_active_identity`.
  unfoldable pub require_active_identity : ℕ → Method (Unit {0})
  require_active_identity n = do
    status ← lift (or_raise (identities n) (identity_not_found n))
    require (Values.is_active status) (authentication (authentication_subject_inactive n))

  unfoldable pub register_credential : ℕ → NewCredential → DateTime → Method Credential
  unfolding require_active_identity save_credential
  register_credential new_id new now = do
    require_active_identity new.of_identity
    let reference = strip new.reference
    existing ← λ st. domain (Credentials.find_by_reference reference st.credentials) st
    require (is_none existing) (authentication (credential_already_exists reference))
    c ← domain (Credential.create new_id (record new { reference = reference }) now)
    save_credential c

  unfoldable pub open_session : ℕ → ℕ → NewSession → DateTime → Method Session
  unfolding require_active_identity save_session
  open_session new_id identity new now = do
    require_active_identity identity
    context ← domain (
        make_context (record {
          method = new.method;
          assurance_level = new.assurance_level;
          mfa = new.mfa;
          authenticated_at = or_now new.authenticated_at now;
          provider_id = new.provider_id;
          device_id = new.device_id;
          network_zone = new.network_zone;
          mfa_verified_at = none;
          mfa_factor_id = none;
        }))
    s ← domain (Session.open_session new_id identity context now new.expires_at)
    save_session s
