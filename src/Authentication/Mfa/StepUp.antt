-- ===== src/Authentication/Mfa/StepUp.antt =====
-- What a `step_up_totp_session` that returns has checked, and what it leaves.
use pyiamkit.Prelude.{
  ℕ, ◌≡◌, refl, sym, ap, ◌∙◌, subst, Bool, true, false, Option, none, some, Result, ok, err,
  or_raise, Text, ◌==◌, ==_iff, ℤ, arith,
}
use pyiamkit.Prelude.Actions.{◌>>=◌, lift, return-ok, then-ok, then-require}
use pyiamkit.Authentication.Service.Calls.{then-domain}
use pyiamkit.Authentication.Mfa.Rotation.{IsElevated, rotate_session-ok}
use pyiamkit.Shared.{DateTime, is_utc}
use pyiamkit.Shared.Stores.Laws.{IsStore, get_copy-In}
use pyiamkit.Authentication.Values.{
  AuthenticationError, SessionStatus, mfa_verification_failed, mfa_factor_not_found,
  session_not_found, mfa_factor_ownership_mismatch,
}
use pyiamkit.Authentication.Session.{Session, active_at}
use pyiamkit.Authentication.Session
use pyiamkit.Authentication.MfaFactor.{MfaFactor, record_verification, is_active, is_replay}
use pyiamkit.Authentication.Memory.Sessions.{sessions, copy}
use pyiamkit.Authentication.Memory.Sessions
use pyiamkit.Authentication.Memory.Factors
use pyiamkit.Authentication.Service.{
  ServiceError, authentication, State, Method, domain, require_session,
}
use pyiamkit.Authentication.Mfa.{
  TotpProvider, save_factor, require_factor, verify_code, accept_code, step_up_totp_session,
}

-- The steps of a method that returns: each leaves the state.
module _ {B : Type 0} where
  then-required :
      {A : Type 0} (r : Result AuthenticationError (Option A)) (e : ServiceError)
      (next : A → Method B) (st : State) {x : B} {t : State}
      → ((domain r >>= λ found. lift (or_raise found e)) >>= next) st ≡ (ok x, t)
      → (a : A) × (r ≡ ok (some a)) × (next a st ≡ (ok x, t))
  then-required (ok (some a)) e next st h = (a, refl, h)
  then-required (ok none) e next st h = absurd (ground arith)
  then-required (err y) e next st h = absurd (ground arith)

  then-require_session :
      (n : ℕ) (next : Session → Method B) (st : State) {x : B} {t : State}
      → (require_session n >>= next) st ≡ (ok x, t)
      → (s : Session) × (Sessions.get n st.sessions ≡ ok (some s)) × (next s st ≡ (ok x, t))
  unfolding require_session
  then-require_session n next st h =
      then-required (Sessions.get n st.sessions) (authentication (session_not_found n)) next st h

  then-require_factor :
      (n : ℕ) (next : MfaFactor → Method B) (st : State) {x : B} {t : State}
      → (require_factor n >>= next) st ≡ (ok x, t)
      → (f : MfaFactor) × (Factors.get n st.factors ≡ ok (some f)) × (next f st ≡ (ok x, t))
  unfolding require_factor
  then-require_factor n next st h =
      then-required (Factors.get n st.factors) (authentication (mfa_factor_not_found n)) next st h

  then-verify_code :
      (totp : TotpProvider) (f : MfaFactor) (code : Text) (at : DateTime) (next : ℤ → Method B)
      (st : State) {x : B} {t : State}
      → (verify_code totp f code at >>= next) st ≡ (ok x, t)
      → (n : ℤ) × (totp.verify f.secret_reference code at f.last_accepted_counter ≡ ok (some n))
        × (next n st ≡ (ok x, t))
  unfolding verify_code
  then-verify_code totp f code at next st h =
      then-required (totp.verify f.secret_reference code at f.last_accepted_counter)
        (authentication mfa_verification_failed) next st h

save_factor-sessions :
    (f x : MfaFactor) (st st' : State) → save_factor f st ≡ (ok x, st') → st'.sessions ≡ st.sessions
unfolding save_factor
save_factor-sessions f x st st' h = ground arith

record_verification-ok :
    (n : ℤ) (at : DateTime) (f : MfaFactor) {f' : MfaFactor}
    → record_verification n at f ≡ ok f'
    → (is_replay n f.last_accepted_counter ≡ false)
      × (f'.last_accepted_counter ≡ some n)
      × (f'.id ≡ f.id)
unfolding record_verification
record_verification-ok n at f h = ground arith

-- What stands in the repositories, and what the provider said, for a code that was accepted.
pub record Accepted (totp : TotpProvider) (session_id factor_id : ℕ) (code : Text) (now : DateTime)
    (st : State) (s : Session) (f : MfaFactor) : Type 0 where
  pub session_found : Sessions.get session_id st.sessions ≡ ok (some s)
  pub session_active : active_at now s.args ≡ true
  pub moment_utc : is_utc now ≡ true
  pub factor_found : Factors.get factor_id st.factors ≡ ok (some f)
  pub owned : s.identity_id ≡ f.identity_id
  pub factor_active : is_active f.status ≡ true
  pub counter : ℤ
  pub verified : totp.verify f.secret_reference code now f.last_accepted_counter ≡ ok (some counter)
  pub not_replayed : is_replay counter f.last_accepted_counter ≡ false

session-active :
    (at : DateTime) (s : Session) {b : Bool}
    → Session.is_active at s ≡ ok b
    → (active_at at s.args ≡ b) × (is_utc at ≡ true)
unfolding Session.is_active
session-active at s h = ground arith

accept_code-Accepted :
    (totp : TotpProvider) (session_id factor_id : ℕ) (code : Text) (now : DateTime) (st : State)
    {s : Session} {f' : MfaFactor} {st' : State}
    → accept_code totp session_id factor_id code now st ≡ (ok (s, f'), st')
    → (f : MfaFactor) × Accepted totp session_id factor_id code now st s f
      × (st'.sessions ≡ st.sessions)
unfolding accept_code
accept_code-Accepted totp session_id factor_id code now st {s} {f'} {st'} h =
    let (s₁, found, h₁) = then-require_session session_id _ st h in
    let (f, f_found, h₂) = then-require_factor factor_id _ st h₁ in
    let (owned, h₃) =
      then-require (s₁.identity_id == f.identity_id)
        (authentication (mfa_factor_ownership_mismatch f.id s₁.identity_id)) _ st h₂ in
    let (live_factor, h₄) =
      then-require (is_active f.status) (authentication mfa_verification_failed) _ st h₃ in
    let (live, e₅, h₅) = then-domain (Session.is_active now s₁) _ st h₄ in
    let (is_live, h₆) = then-require live (authentication mfa_verification_failed) _ st h₅ in
    let (n, verified, h₇) = then-verify_code totp f code now _ st h₆ in
    let (f₁, e₈, h₈) = then-domain (record_verification n now f) _ st h₇ in
    let (saved, st₁, e₉, h₉) = then-ok (save_factor f₁) _ st h₈ in
    let (act, utc) = session-active now s₁ e₅ in
    let (new, last, same_id) = record_verification-ok n now f e₈ in
    let (out, state) = return-ok (s₁, f₁) (s, f') st₁ st' h₉ in
    let same = ap (λ (x : Session × MfaFactor). x.0) out in
    let kept = save_factor-sessions f₁ saved st st₁ e₉ in
    (
      f,
      subst (λ x. Accepted totp session_id factor_id code now st x f) same
          (record {
            session_found = found;
            session_active = act ∙ is_live;
            moment_utc = utc;
            factor_found = f_found;
            owned = (==_iff s₁.identity_id f.identity_id).0 owned;
            factor_active = live_factor;
            counter = n;
            verified = verified;
            not_replayed = new;
          }),
      subst (λ (x : State). x.sessions ≡ st.sessions) state kept,
    )

session-id :
    (n : ℕ) (st : State) {s : Session}
    → IsStore sessions st.sessions
    → Sessions.get n st.sessions ≡ ok (some s)
    → s.id ≡ n
unfolding Sessions.get
session-id n st i h = (get_copy-In sessions n st.sessions i h).1

-- When `step_up_totp_session` returns on a well-formed repository of sessions: the session that was
-- named is stored and active at that moment, and the factor that was named is active and belongs to
-- the same identity; the provider gave for the code a counter that the factor had not accepted yet;
-- the session that is returned, and stored under the new identifier, is for the same identity and
-- expires when the old one did, has a second factor verified now, an assurance of at least AAL2 and
-- not below the old one; and the old session, under another identifier, is stored as revoked.
pub step_up_totp_session-IsElevated :
    (totp : TotpProvider) (new_id session_id factor_id : ℕ) (code : Text) (now : DateTime)
    (st : State) {e : Session} {st' : State}
    → IsStore sessions st.sessions
    → step_up_totp_session totp new_id session_id factor_id code now st ≡ (ok e, st')
    → (s : Session) × (f : MfaFactor) × Accepted totp session_id factor_id code now st s f
      × IsElevated s now e
      × (Sessions.get new_id st'.sessions ≡ ok (some e))
      × (session_id == new_id ≡ false
          → (b : Session) × (Sessions.get session_id st'.sessions ≡ ok (some b))
            × (b.status ≡ SessionStatus.revoked))
unfolding step_up_totp_session
step_up_totp_session-IsElevated totp new_id session_id factor_id code now st {e} {st'} i h =
    let ((s, f'), st₁, e₁, h₁) = then-ok (accept_code totp session_id factor_id code now) _ st h in
    let (f, accepted, kept) = accept_code-Accepted totp session_id factor_id code now st e₁ in
    let i₁ = subst (IsStore sessions) (sym kept) i in
    let (elevated, same, new, old) = rotate_session-ok new_id s f' now st₁ i₁ h₁ in
    let id = session-id session_id st i accepted.session_found in
    (
      s,
      f,
      accepted,
      elevated,
      new,
      subst
          (λ k.
            k == new_id ≡ false
            → (b : Session) × (Sessions.get k st'.sessions ≡ ok (some b))
              × (b.status ≡ SessionStatus.revoked))
          id old,
    )
