-- ===== src/Tests/Sessions.antt =====
-- A session through some of its calls.
use pyiamkit.Prelude.{◌≡◌, refl, true, false, none, List, [], ◌∷◌, ok, err}
use pyiamkit.Shared.{run, DateTime, before}
use pyiamkit.Authentication.Values.{
  AssuranceLevel, AuthenticationMethod, SessionStatus, invalid_session,
}
use pyiamkit.Authentication.Context.{AuthenticationContext}
use pyiamkit.Authentication.Session.{Session, SessionArgs, init, rehydrate, active_at, revoke}
use pyiamkit.Authentication.Session.Lifecycle.{Call, IsKept, call, session-IsKept}
use pyiamkit.Authentication.Session.Storage.{session-rehydrates, revoke-rehydrate, init-IsValid}
use pyiamkit.Tests.Data.{utc_at, noon, evening}

abbrev pub context : AuthenticationContext
context = record {
  method = AuthenticationMethod.password;
  assurance_level = AssuranceLevel.aal1;
  mfa = false;
  authenticated_at = utc_at 10;
  provider_id = none;
  device_id = none;
  network_zone = none;
  mfa_verified_at = none;
  mfa_factor_id = none;
}

abbrev pub session_args : SessionArgs
session_args = record {
  id = 61;
  version = 1;
  identity_id = 5;
  status = SessionStatus.active;
  context = context;
  created_at = utc_at 10;
  updated_at = utc_at 50;
  expires_at = utc_at 150;
  last_activity_at = utc_at 50;
  revoked_at = none;
  revocation_reason = none;
}

abbrev pub session : Session
session = record { args = session_args; pending_events = [] }

abbrev calls : List (DateTime × Call)
calls =
    (utc_at 60, Call.touches)
    ∷ (noon, Call.steps_up AssuranceLevel.aal2 71)
    ∷ (evening, Call.expires)
    ∷ []

session-init : init session_args ≡ ok session
unfolding init
session-init = refl

session-IsKept_example :
    IsKept session.args (run call calls session).args
    × (active_at noon (run call calls session).args ≡ true → before noon (utc_at 150) ≡ true)
session-IsKept_example = session-IsKept calls session noon

session-rehydrates_example :
    rehydrate (run call calls session).args
    ≡ ok (record (run call calls session) { pending_events = [] })
session-rehydrates_example = session-rehydrates session_args session-init calls refl

revoke-rehydrate_example :
    (s' : Session) × (revoke none (utc_at 40) session ≡ ok s')
    × (rehydrate s'.args ≡ err invalid_session)
revoke-rehydrate_example =
    revoke-rehydrate none (utc_at 40) session (init-IsValid session_args session-init) refl refl
      refl
