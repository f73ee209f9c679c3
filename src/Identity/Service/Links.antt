-- ===== src/Identity/Service/Links.antt =====
-- An external subject belongs to one identity: what every call of the service keeps of the repository.
use pyiamkit.Prelude.{
  ℕ, ◌≡◌, sym, ◌∙◌, subst, ◌⊎◌, inl, inr, true, Option, List, [], ◌∷◌, ◌++◌, Result, ok, ◌>>=◌,
  guard, guard-eq-ok, Text, strip_idem, text_beq_iff, Unicode, any, any-append, In, >>=-eq-ok,
  arith,
}
use pyiamkit.Shared.{DateTime, MetaValue, run, run-keep}
use pyiamkit.Identity.Values.{
  IdentityError, ExternalIdentityLink, ServiceAccount, make_service_account, EmailAddress,
}
use pyiamkit.Identity.Aggregate.{
  Identity, IdentityArgs, IdentityResult, init, validate_profile, rehydrate, is_link, pop_link,
  ProfileUpdate, activate, suspend, reactivate, disable, archive, update_user_profile, create_user,
  create_service_account, pull_events,
}
use pyiamkit.Identity.Aggregate
use pyiamkit.Identity.Aggregate.Lifecycle.{StatusCall, Call, IsValid, call-IsValid}
use pyiamkit.Identity.Memory.{IdentityStore, linked, find_by_external_subject}
use pyiamkit.Identity.Service.{
  State, ServiceResult, get_required, activate_identity, suspend_identity, reactivate_identity,
  disable_identity, archive_identity, unlink_external_identity, link_external_identity,
  none_or_same, create_user_identity, create_service_identity, update_profile, parse_optional,
}
use pyiamkit.Identity.Service.Entries.{IsConsistent, get_required-In, OwnLinks, save-IsConsistent}
use pyiamkit.Identity.Service.Narrowing.{
  Narrows-OwnLinks, link-eq, call-Narrows, change_identity-IsConsistent,
}
use pyiamkit.Identity.Service.Subjects.{find_by_external_subject-exact}

linked-snoc :
    (p s : Text) (i i' : Identity) (l : ExternalIdentityLink)
    → i'.external_links ≡ i.external_links ++ l ∷ []
    → linked p s i' ≡ true
    → (linked p s i ≡ true) ⊎ ((p ≡ l.provider_id) × (s ≡ l.external_subject))
linked-snoc p s i i' l e h = ground (
  arith,
  any-append (is_link p s) i.external_links (l ∷ []),
  text_beq_iff l.provider_id p,
  text_beq_iff l.external_subject s,
  subst (λ x. any (is_link p s) x ≡ true) e h,
)

same_subject :
    (b : Identity) {q t p s p' s' : Text}
    → linked q t b ≡ true
    → q ≡ p'
    → t ≡ s'
    → p' ≡ p
    → s' ≡ s
    → linked p s b ≡ true
same_subject b {q} {t} {p} {s} {p'} {s'} l e₁ e₂ e₃ e₄ =
    subst (λ x. linked x s b ≡ true) (e₁ ∙ e₃) (subst (λ y. linked q y b ≡ true) (e₂ ∙ e₄) l)

-- The check of the service is enough for the links of all identities.
linked-OwnLinks :
    (p s : Text) (now : DateTime) (i i' : Identity) (items : IdentityStore)
    (found : Option Identity)
    → IsConsistent items
    → In (i.id, i) items
    → find_by_external_subject p s items ≡ ok found
    → none_or_same found i.id ≡ true
    → Aggregate.link_external_identity p s now i ≡ ok i'
    → OwnLinks i' items
linked-OwnLinks p s now i i' items found c place f free h b q t ib li lb =
    let (l, pe, se, le, same) = link-eq p s now i h in
    elim (linked-snoc q t i i' l le li) [
      | inl old ↦ c.exclusive b (i.id, i) q t ib place lb old ∙ sym same
      | inr (e₁, e₂) ↦
          let (found', f', all, _) = find_by_external_subject-exact p s items c in
          let (x, g, n) = all b ib (same_subject b.1 lb e₁ e₂ pe se) in
          let same_id : x.id ≡ i.id = ground arith in sym n ∙ same_id ∙ sym same
    ]

link_external_identity-IsConsistent :
    (p s : Text) (now : DateTime) (n : ℕ) (st : State) {r : Identity × State}
    → IsConsistent st.items
    → link_external_identity p s now n st ≡ ok r
    → IsConsistent r.1.items
unfolding link_external_identity
link_external_identity-IsConsistent p s now n st k h =
    let (i, e, h₁) = >>=-eq-ok (get_required n st) _ h in
    let (found, e₂, h₂) = >>=-eq-ok (find_by_external_subject p s st.items) _ h₁ in
    let (x, e₃, h₃) = >>=-eq-ok (guard (none_or_same found i.id) _) _ h₂ in
    let (i', e₄, h₄) = >>=-eq-ok (Aggregate.link_external_identity p s now i) _ h₃ in
    let (place, v) = get_required-In n st k e in
    let free = guard-eq-ok _ _ e₃ in
    save-IsConsistent i' st k (call-IsValid (Call.links p s) now i v e₄)
      (linked-OwnLinks p s now i i' st.items found k place e₂ free e₄) h₄

-- A new Identity has no links.
created-OwnLinks : (i : Identity) (items : IdentityStore) → i.external_links ≡ [] → OwnLinks i items
created-OwnLinks i items e b p s ib li lb =
    let none_yet : any (is_link p s) [] ≡ true = subst (λ x. any (is_link p s) x ≡ true) e li in
    absurd (cc none_yet)

create_user-new :
    (new_id : ℕ) (name : Text) (now : DateTime) (email : Option EmailAddress)
    (metadata : List (Text × MetaValue)) {i : Identity}
    → create_user new_id name now email metadata ≡ ok i
    → IsValid i.args × (i.external_links ≡ [])
unfolding create_user init validate_profile
create_user-new new_id name now email metadata h = ground (arith, strip_idem name)

create_service_account-new :
    (new_id : ℕ) (name : Text) (account : ServiceAccount) (now : DateTime)
    (metadata : List (Text × MetaValue)) {i : Identity}
    → create_service_account new_id name account now metadata ≡ ok i
    → IsValid i.args × (i.external_links ≡ [])
unfolding create_service_account init make_service_account validate_profile
create_service_account-new new_id name account now metadata h = ground (arith, strip_idem name)

-- The calls of the service that change something.
pub data ServiceCall : Type 0 where
  makes_user : ℕ → Text → Option Text → List (Text × MetaValue) → ServiceCall
  makes_service_account : ℕ → Text → ServiceAccount → List (Text × MetaValue) → ServiceCall
  moves : StatusCall → ℕ → ServiceCall
  updates_profile : ProfileUpdate → Option Text → ℕ → ServiceCall
  adds_link removes_link : Text → Text → ℕ → ServiceCall

module _ (u : Unicode) where
  abbrev pub answer : ServiceCall → DateTime → State → ServiceResult
  answer (makes_user n name email metadata) now = create_user_identity u n name email metadata now
  answer (makes_service_account n name account metadata) now =
      create_service_identity n name account metadata now
  answer (moves StatusCall.activates n) now = activate_identity now n
  answer (moves StatusCall.suspends n) now = suspend_identity now n
  answer (moves StatusCall.reactivates n) now = reactivate_identity now n
  answer (moves (StatusCall.disables reason) n) now = disable_identity reason now n
  answer (moves StatusCall.archives n) now = archive_identity now n
  answer (updates_profile new email n) now = update_profile u new email now n
  answer (adds_link p s n) now = link_external_identity p s now n
  answer (removes_link p s n) now = unlink_external_identity p s now n

  -- The state that a call leaves.
  abbrev pub serve : ServiceCall → DateTime → State → Result IdentityError State
  serve c now st = do r ← answer c now st; ok r.1

  answer-IsConsistent :
      (c : ServiceCall) (now : DateTime) (st : State) {r : Identity × State}
      → IsConsistent st.items
      → answer c now st ≡ ok r
      → IsConsistent r.1.items
  unfolding create_user_identity create_service_identity activate_identity suspend_identity
      reactivate_identity disable_identity archive_identity update_profile unlink_external_identity
  answer-IsConsistent (makes_user n name email metadata) now st k h =
      let (a, e₁, h₁) = >>=-eq-ok (parse_optional u email) _ h in
      let (i, e₂, h₂) = >>=-eq-ok (create_user n name now a metadata) _ h₁ in
      let (v, none_yet) = create_user-new n name now a metadata e₂ in
      save-IsConsistent i st k v (created-OwnLinks i st.items none_yet) h₂
  answer-IsConsistent (makes_service_account n name account metadata) now st k h =
      let (o, e₁, h₁) = >>=-eq-ok (get_required account.owner_identity_id st) _ h in
      let (i, e₂, h₂) = >>=-eq-ok (create_service_account n name account now metadata) _ h₁ in
      let (v, none_yet) = create_service_account-new n name account now metadata e₂ in
      save-IsConsistent i st k v (created-OwnLinks i st.items none_yet) h₂
  answer-IsConsistent (moves StatusCall.activates n) now st k h =
      change_identity-IsConsistent (Call.status_call StatusCall.activates) now n st tt k h
  answer-IsConsistent (moves StatusCall.suspends n) now st k h =
      change_identity-IsConsistent (Call.status_call StatusCall.suspends) now n st tt k h
  answer-IsConsistent (moves StatusCall.reactivates n) now st k h =
      change_identity-IsConsistent (Call.status_call StatusCall.reactivates) now n st tt k h
  answer-IsConsistent (moves (StatusCall.disables reason) n) now st k h =
      change_identity-IsConsistent (Call.status_call (StatusCall.disables reason)) now n st tt k h
  answer-IsConsistent (moves StatusCall.archives n) now st k h =
      change_identity-IsConsistent (Call.status_call StatusCall.archives) now n st tt k h
  answer-IsConsistent (updates_profile new email n) now st k h =
      let (i, e, h₁) = >>=-eq-ok (get_required n st) _ h in
      let (a, e₁, h₂) = >>=-eq-ok (parse_optional u email) _ h₁ in
      let new' : ProfileUpdate = record new {
        fields = record (new.fields) { primary_email = a };
      } in
      let (i', e₂, h₃) = >>=-eq-ok (update_user_profile new' now i) _ h₂ in
      let (place, v) = get_required-In n st k e in
      save-IsConsistent i' st k (call-IsValid (Call.updates new') now i v e₂)
        (Narrows-OwnLinks i i' st.items k.exclusive place
          (call-Narrows (Call.updates new') now i tt e₂))
        h₃
  answer-IsConsistent (adds_link p s n) now st k h =
      link_external_identity-IsConsistent p s now n st k h
  answer-IsConsistent (removes_link p s n) now st k h =
      change_identity-IsConsistent (Call.unlinks p s) now n st tt k h

  serve-IsConsistent :
      (c : ServiceCall) (now : DateTime) (st : State) {st' : State}
      → IsConsistent st.items
      → serve c now st ≡ ok st'
      → IsConsistent st'.items
  serve-IsConsistent c now st {st'} k h =
      let (r, e, h₁) = >>=-eq-ok (answer c now st) _ h in
      let same : r.1 ≡ st' = ground arith in
      subst (λ (x : State). IsConsistent x.items) same (answer-IsConsistent c now st k e)

  -- Whatever is called of the service, at whatever moments: the repository goes on holding valid
  -- clones under their identifiers, each without pending events, and a subject of a provider that
  -- is linked to one identity is never linked to another.
  pub service-IsConsistent :
      (cs : List (DateTime × ServiceCall)) (st : State)
      → IsConsistent st.items
      → IsConsistent (run serve cs st).items
  service-IsConsistent cs st k =
      run-keep serve (λ (x : State). IsConsistent x.items)
        (λ c now x y p e. serve-IsConsistent c now x p e) cs st k
