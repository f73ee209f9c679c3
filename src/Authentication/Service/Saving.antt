-- ===== src/Authentication/Service/Saving.antt =====
-- What `_save_session` does where the copy of the session can be made.
use pyiamkit.Prelude.{
  ℕ, ◌≡◌, refl, sym, ◌∙◌, subst, some, List, [], ◌++◌, Result, ok, err, insert, arith,
}
use pyiamkit.Shared.Stores.{save_copy, get_copy}
use pyiamkit.Shared.Stores.Laws.{IsStore, save_copy-get_copy}
use pyiamkit.Authentication.Values.{AuthenticationError}
use pyiamkit.Authentication.Session.{Session}
use pyiamkit.Authentication.Session
use pyiamkit.Authentication.Memory.Sessions.{sessions, copy, get, save}
use pyiamkit.Authentication.Service.{ServiceError, authentication, State, save_session}

-- The state after a session is saved whose copy is `b`.
abbrev pub with_session : Session → Session → State → State
with_session s b st = record st {
  sessions = insert s.id b st.sessions;
  published = st.published ++ s.pending_events;
}

copied_items :
    (s b : Session) (items : List (ℕ × Session))
    → copy s ≡ ok b
    → save_copy sessions (record s { pending_events = [] }) items ≡ ok (insert s.id b items)
unfolding save_copy copy
copied_items s b items e = rw e refl

-- `_save_session` of a session that can be copied saves the copy under the session's identifier,
-- publishes the session's events and returns the copy.
pub save_session-ok :
    (s b : Session) (st : State)
    → IsStore sessions st.sessions
    → copy s ≡ ok b
    → (save_session s st ≡ (ok b, with_session s b st))
      × IsStore sessions (insert s.id b st.sessions)
unfolding save_session save get copy Session.rehydrate Session.pull_events
save_session-ok s b st i e =
    let bare : Session = record s { pending_events = [] } in
    let items = insert s.id b st.sessions in
    let done : save_copy sessions bare st.sessions ≡ ok items = copied_items s b st.sessions e in
    let (b', e', i', q, g, o) = save_copy-get_copy sessions bare st.sessions i done in
    let found : get_copy copy s.id items ≡ ok (some b) = ground arith in (rw (done, found) refl, i')

save_session-err :
    (s : Session) (st : State) {x : AuthenticationError}
    → copy s ≡ err x
    → save_session s st ≡ (err (authentication x), st)
unfolding save_session save save_copy copy Session.rehydrate Session.pull_events
save_session-err s st e = rw e refl

-- A `_save_session` that returns has done that.
pub save_session-eq :
    (s b : Session) (st st' : State)
    → IsStore sessions st.sessions
    → save_session s st ≡ (ok b, st')
    → (copy s ≡ ok b) × (st' ≡ with_session s b st) × IsStore sessions st'.sessions
save_session-eq s b st st' i h = made (copy s) refl
  where
    made :
        (r : Result AuthenticationError Session)
        → copy s ≡ r
        → (copy s ≡ ok b) × (st' ≡ with_session s b st) × IsStore sessions st'.sessions
    made (ok c) e =
        let (f, i') = save_session-ok s c st i e in
        let both : ◌≡◌ {A = Result ServiceError Session × State} (ok c, with_session s c st)
            (ok b, st') =
          sym f ∙ h in
        let same : c ≡ b = ground arith in
        let state : with_session s c st ≡ st' = ground arith in
        (
          subst (λ x. copy s ≡ ok x) same e,
          subst (λ x. st' ≡ with_session s x st) same (sym state),
          subst (λ (x : State). IsStore sessions x.sessions) state i',
        )
    made (err x) e = absurd (ground (arith, save_session-err s st e))
