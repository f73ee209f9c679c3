-- ===== src/Authentication/Mfa/Rotation.antt =====
-- What the second half of `step_up_totp_session` leaves: the old session revoked, and a new one.
use pyiamkit.Prelude.{
  ℕ, ◌≡◌, ◌≤◌, sym, ap, ◌∙◌, subst, true, false, Option, some, List, ok, insert, lookup,
  lookup-insert, strip_or_none, Text, ◌==◌, arith,
}
use pyiamkit.Prelude.Actions.{then-ok}
use pyiamkit.Shared.{DateTime}
use pyiamkit.Shared.Stores.Laws.{IsStore, get_copy-lookup}
use pyiamkit.Authentication.Values.{SessionStatus, AssuranceLevel, assurance_rank}
use pyiamkit.Authentication.Context.{AuthenticationContext, make_context}
use pyiamkit.Authentication.Session.{Session, SessionArgs, init, rehydrate, revoke, open_session}
use pyiamkit.Authentication.Session.Lifecycle.{context-kept}
use pyiamkit.Authentication.MfaFactor.{MfaFactor}
use pyiamkit.Authentication.Memory.Sessions.{sessions, copy, get}
use pyiamkit.Authentication.Service.{State, save_session}
use pyiamkit.Authentication.Service.Saving.{save_session-eq}
use pyiamkit.Authentication.Service.Calls.{then-domain}
use pyiamkit.Authentication.Mfa.{
  elevated_context, effective_assurance, rotation_reason, rotate_session,
}

-- The elevated session: for the same identity and no longer than the old one, from the same
-- authentication, with a second factor verified now and an assurance that is no lower.
pub record IsElevated (s : Session) (now : DateTime) (e : Session) : Type 0 where
  pub same_identity : e.identity_id ≡ s.identity_id
  pub same_expiry : e.expires_at ≡ s.expires_at
  pub active : e.status ≡ SessionStatus.active
  pub created_now : e.created_at ≡ now
  pub same_authenticated : e.context.authenticated_at ≡ s.context.authenticated_at
  pub with_mfa : e.context.mfa ≡ true
  pub verified_now : e.context.mfa_verified_at ≡ some now
  pub at_least_aal2 : 2 ≤ assurance_rank e.context.assurance_level
  pub no_lower : assurance_rank s.context.assurance_level ≤ assurance_rank e.context.assurance_level

effective-at_least :
    (l : AssuranceLevel)
    → (2 ≤ assurance_rank (effective_assurance l))
      × (assurance_rank l ≤ assurance_rank (effective_assurance l))
effective-at_least AssuranceLevel.aal1 = (omega arith, omega arith)
effective-at_least AssuranceLevel.aal2 = (omega arith, omega arith)
effective-at_least AssuranceLevel.aal3 = (omega arith, omega arith)

-- A new session, and a copy.
opened-eq :
    (n identity : ℕ) (c : AuthenticationContext) (now until : DateTime) {e : Session}
    → open_session n identity c now until ≡ ok e
    → (e.id ≡ n)
      × (e.identity_id ≡ identity)
      × (e.context ≡ c)
      × (e.expires_at ≡ until)
      × (e.status ≡ SessionStatus.active)
      × (e.created_at ≡ now)
unfolding open_session init
opened-eq n identity c now until h = ground arith

copied-eq :
    (s : Session) {b : Session}
    → copy s ≡ ok b
    → (b.args ≡ record (s.args) { revocation_reason = strip_or_none s.revocation_reason })
unfolding copy rehydrate init
copied-eq s h = ground arith

revoked-eq :
    (reason : Option Text) (now : DateTime) (s : Session) {s' : Session}
    → revoke reason now s ≡ ok s'
    → (s'.id ≡ s.id) × (s'.status ≡ SessionStatus.revoked)
unfolding revoke
revoked-eq reason now s h = ground arith

open_session-IsElevated :
    (n : ℕ) (s : Session) (f : MfaFactor) (now : DateTime) (c : AuthenticationContext)
    (e b : Session)
    → make_context (elevated_context s.context f now) ≡ ok c
    → open_session n s.identity_id c now s.expires_at ≡ ok e
    → copy e ≡ ok b
    → IsElevated s now b × (e.id ≡ n) × (b.id ≡ n)
open_session-IsElevated n s f now c e b hc ho hb =
    let (level, mfa, auth, verified) = context-kept (elevated_context s.context f now) hc in
    let (two, low) = effective-at_least s.context.assurance_level in
    let (i, identity, context, until, status, created) =
      opened-eq n s.identity_id c now s.expires_at ho in
    let args = copied-eq e hb in
    let same : b.context ≡ c = ap (λ (a : SessionArgs). a.context) args ∙ context in
    (
      record {
        same_identity = ap (λ (a : SessionArgs). a.identity_id) args ∙ identity;
        same_expiry = ap (λ (a : SessionArgs). a.expires_at) args ∙ until;
        active = ap (λ (a : SessionArgs). a.status) args ∙ status;
        created_now = ap (λ (a : SessionArgs). a.created_at) args ∙ created;
        same_authenticated = ap (λ (x : AuthenticationContext). x.authenticated_at) same ∙ auth;
        with_mfa = ap (λ (x : AuthenticationContext). x.mfa) same ∙ mfa;
        verified_now = ap (λ (x : AuthenticationContext). x.mfa_verified_at) same ∙ verified;
        at_least_aal2 =
            subst (λ x. 2 ≤ assurance_rank x)
              (sym (ap (λ (x : AuthenticationContext). x.assurance_level) same ∙ level)) two;
        no_lower =
            subst (λ x. assurance_rank s.context.assurance_level ≤ assurance_rank x)
              (sym (ap (λ (x : AuthenticationContext). x.assurance_level) same ∙ level)) low;
      },
      i,
      ap (λ (a : SessionArgs). a.id) args ∙ i,
    )

lookup_both :
    (n k : ℕ) (b c : Session) (items : List (ℕ × Session))
    → (lookup n (insert n b (insert k c items)) ≡ some b)
      × (k == n ≡ false → lookup k (insert n b (insert k c items)) ≡ some c)
lookup_both n k b c items = (
  ground (arith, lookup-insert n n b (insert k c items)),
  λ o. ground (arith, lookup-insert k n b (insert k c items), lookup-insert k k c items),
)

pub rotate_session-ok :
    (n : ℕ) (s : Session) (f : MfaFactor) (now : DateTime) (st : State) {e : Session} {st' : State}
    → IsStore sessions st.sessions
    → rotate_session n s f now st ≡ (ok e, st')
    → IsElevated s now e
      × (e.id ≡ n)
      × (get n st'.sessions ≡ ok (some e))
      × (s.id == n ≡ false
          → (b : Session) × (get s.id st'.sessions ≡ ok (some b))
            × (b.status ≡ SessionStatus.revoked))
unfolding rotate_session get
rotate_session-ok n s f now st {e} {st'} i h =
    let (s', r, h₁) = then-domain (revoke (some rotation_reason) now s) _ st h in
    let (closed, st₁, e₁, h₂) = then-ok (save_session s') _ st h₁ in
    let (c, hc, h₃) = then-domain (make_context (elevated_context s.context f now)) _ st₁ h₂ in
    let (e₀, ho, h₄) = then-domain (open_session n s.identity_id c now s.expires_at) _ st₁ h₃ in
    let (copy₁, state₁, i₁) = save_session-eq s' closed st st₁ i e₁ in
    let (copy₂, state₂, i₂) = save_session-eq e₀ e st₁ st' i₁ h₄ in
    let (elevated, id₀, id_e) = open_session-IsElevated n s f now c e₀ e hc ho copy₂ in
    let (same_id, revoked) = revoked-eq (some rotation_reason) now s r in
    let items : st'.sessions ≡ insert n e (insert s.id closed st.sessions) =
      ap (λ (x : State). x.sessions) state₂
      ∙ ap (λ k. insert k e st₁.sessions) id₀
      ∙ ap (λ (x : State). insert n e x.sessions) state₁
      ∙ ap (λ k. insert n e (insert k closed st.sessions)) same_id in
    let (new, old) = lookup_both n s.id e closed st.sessions in
    (
      elevated,
      id_e,
      get_copy-lookup sessions n st'.sessions i₂
          ∙ ap ok (subst (λ x. lookup n x ≡ some e) (sym items) new),
      λ o. (
        closed,
        get_copy-lookup sessions s.id st'.sessions i₂
            ∙ ap ok (subst (λ x. lookup s.id x ≡ some closed) (sym items) (old o)),
        ap (λ (a : SessionArgs). a.status) (copied-eq s' copy₁) ∙ revoked,
      ),
    )
