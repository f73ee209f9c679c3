-- ===== src/Identity/Service/Narrowing.antt =====
-- The calls of an Identity that add no link.
use pyiamkit.Prelude.{
  ℕ, ◌≡◌, sym, ◌∙◌, subst, inl, inr, true, some, List, [], ◌∷◌, ◌++◌, ok, guard, or_raise,
  or_raise-eq-ok, Text, strip, any, In, Bool-cases, Option-cases, >>=-eq-ok, arith,
}
use pyiamkit.Shared.{DateTime, is_utc}
use pyiamkit.Identity.Values.{ExternalIdentityLink, make_link}
use pyiamkit.Identity.Aggregate.{
  Identity, IdentityArgs, IdentityResult, init, validate_profile, rehydrate, is_link, pop_link,
  ProfileUpdate, activate, suspend, reactivate, disable, archive, update_user_profile, create_user,
  create_service_account, pull_events,
}
use pyiamkit.Identity.Aggregate
use pyiamkit.Identity.Aggregate.Lifecycle.{
  StatusCall, call_status, Call, IsValid, init-IsValid, init_rehydrates, call-IsValid,
}
use pyiamkit.Identity.Aggregate.Lifecycle
use pyiamkit.Identity.Memory.{IdentityStore, linked}
use pyiamkit.Identity.Service.{State, get_required, change_identity}
use pyiamkit.Identity.Service.Entries.{
  IsExclusive, IsConsistent, get_required-In, OwnLinks, save-IsConsistent,
}

-- The links of `i'` are links of `i`, which has the same identifier.
abbrev pub Narrows : Identity → Identity → Type 0
Narrows i i' = (i'.id ≡ i.id) × ((p s : Text) → linked p s i' ≡ true → linked p s i ≡ true)

pub Narrows-OwnLinks :
    (i i' : Identity) (items : IdentityStore)
    → IsExclusive items
    → In (i.id, i) items
    → Narrows i i'
    → OwnLinks i' items
Narrows-OwnLinks i i' items x place (same, fewer) b p s ib li lb =
    x b (i.id, i) p s ib place lb (fewer p s li) ∙ sym same

pub pop_link-any :
    (q t p s : Text) (ls : List ExternalIdentityLink)
    {r : ExternalIdentityLink × List ExternalIdentityLink}
    → pop_link q t ls ≡ some r
    → any (is_link p s) r.1 ≡ true
    → any (is_link p s) ls ≡ true
unfolding pop_link
pop_link-any q t p s [] h a = absurd (cc h)
pop_link-any q t p s (l ∷ ls) {r} h a = elim (Bool-cases (is_link q t l)) [
  | inl e ↦
      let same : ls ≡ r.1 = ground arith in
      ground (arith, subst (λ x. any (is_link p s) x ≡ true) (sym same) a)
  | inr e ↦ elim (Option-cases (pop_link q t ls)) [
    | inl f ↦ absurd (ground arith)
    | inr (r', f) ↦
        let same : l ∷ r'.1 ≡ r.1 = ground arith in
        ground
          (arith, pop_link-any q t p s ls f, subst (λ x. any (is_link p s) x ≡ true) (sym same) a)
  ]
]

pub unlink-Narrows :
    (provider subject : Text) (at : DateTime) (i : Identity) {i' : Identity}
    → Aggregate.unlink_external_identity provider subject at i ≡ ok i'
    → Narrows i i'
unfolding Aggregate.unlink_external_identity
unlink-Narrows provider subject at i {i'} h =
    let q = strip provider in
    let t = strip subject in
    let (u, e₁, h₁) = >>=-eq-ok (guard (is_utc at) _) _ h in
    let (r, e₂, h₂) = >>=-eq-ok (or_raise (pop_link q t i.external_links) _) _ h₁ in
    let rest : r.1 ≡ i'.external_links = ground arith in
    (
      ground arith,
      λ p s a.
          pop_link-any q t p s i.external_links (or_raise-eq-ok _ _ e₂)
            (subst (λ x. any (is_link p s) x ≡ true) (sym rest) a),
    )

-- What a `link_external_identity` that returns has added.
pub link-eq :
    (provider subject : Text) (at : DateTime) (i : Identity) {i' : Identity}
    → Aggregate.link_external_identity provider subject at i ≡ ok i'
    → (l : ExternalIdentityLink) × (l.provider_id ≡ strip provider)
      × (l.external_subject ≡ strip subject)
      × (i'.external_links ≡ i.external_links ++ l ∷ [])
      × (i'.id ≡ i.id)
unfolding Aggregate.link_external_identity make_link
link-eq provider subject at i h =
    let (l, e₁, h₁) = >>=-eq-ok (make_link provider subject at) _ h in
    (l, ground arith, ground arith, ground arith, ground arith)

-- The calls that add no link.
abbrev pub AddsNone : Call → Type 0
AddsNone (Call.links p s) = ⊥
AddsNone _ = Unit

pub call-Narrows :
    (c : Call) (at : DateTime) (i : Identity) {i' : Identity}
    → AddsNone c
    → Lifecycle.call c at i ≡ ok i'
    → Narrows i i'
unfolding activate suspend reactivate disable archive update_user_profile
call-Narrows (Call.status_call StatusCall.activates) at i n h = (ground arith, λ p s. ground arith)
call-Narrows (Call.status_call StatusCall.suspends) at i n h = (ground arith, λ p s. ground arith)
call-Narrows (Call.status_call StatusCall.reactivates) at i n h =
    (ground arith, λ p s. ground arith)
call-Narrows (Call.status_call (StatusCall.disables reason)) at i n h =
    (ground arith, λ p s. ground arith)
call-Narrows (Call.status_call StatusCall.archives) at i n h = (ground arith, λ p s. ground arith)
call-Narrows (Call.updates new) at i n h = (ground arith, λ p s. ground arith)
call-Narrows (Call.links p s) at i n h = absurd n
call-Narrows (Call.unlinks provider subject) at i n h = unlink-Narrows provider subject at i h

pub change_identity-IsConsistent :
    (c : Call) (now : DateTime) (n : ℕ) (st : State) {r : Identity × State}
    → AddsNone c
    → IsConsistent st.items
    → change_identity (Lifecycle.call c now) n st ≡ ok r
    → IsConsistent r.1.items
unfolding change_identity
change_identity-IsConsistent c now n st a k h =
    let (i, e, h₁) = >>=-eq-ok (get_required n st) _ h in
    let (i', e₂, h₂) = >>=-eq-ok (Lifecycle.call c now i) _ h₁ in
    let (place, v) = get_required-In n st k e in
    save-IsConsistent i' st k (call-IsValid c now i v e₂)
      (Narrows-OwnLinks i i' st.items k.exclusive place (call-Narrows c now i a e₂)) h₂
