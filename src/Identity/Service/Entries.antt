-- ===== src/Identity/Service/Entries.antt =====
-- What the repository of identities keeps, and what `save` and `_get_required` do to it.
use pyiamkit.Prelude.{
  ℕ, ◌≡◌, refl, sym, ap, ◌∙◌, subst, ◌⊎◌, inl, inr, true, [], ok, Text, lookup, insert, All, All-In,
  In, insert-All, In-insert, lookup-In, Option-cases, >>=-eq-ok, arith,
}
use pyiamkit.Identity.Aggregate.{Identity, rehydrate}
use pyiamkit.Identity.Aggregate.Lifecycle.{IsValid, init_rehydrates}
use pyiamkit.Identity.Memory.{IdentityStore, clone, get, save, linked}
use pyiamkit.Identity.Service.{State, get_required, save_and_publish}

-- An entry that the repository keeps: a valid clone without pending events, under its identifier.
pub record IsEntry (e : ℕ × Identity) : Type 0 where
  pub key : e.1.id ≡ e.0
  pub valid : IsValid e.1.args
  pub no_events : e.1.pending_events ≡ []

abbrev pub IsExclusive : IdentityStore → Type 0
IsExclusive items =
    (a b : ℕ × Identity) (p s : Text)
    → In a items
    → In b items
    → linked p s a.1 ≡ true
    → linked p s b.1 ≡ true
    → a.0 ≡ b.0

-- Every entry is such a clone, and no subject of a provider is linked to two identities.
pub record IsConsistent (items : IdentityStore) : Type 0 where
  pub stored : All IsEntry items
  pub exclusive : IsExclusive items

abbrev pub stripped : Identity → Identity
stripped i = record i { pending_events = [] }

pub clone_valid : (i : Identity) → IsValid i.args → clone i ≡ ok (stripped i)
unfolding clone rehydrate
clone_valid i v = init_rehydrates i v

pub clone_entry : (e : ℕ × Identity) → IsEntry e → clone e.1 ≡ ok e.1
clone_entry (k, i) h = ground (arith, clone_valid i h.valid, h.no_events)

-- What `_get_required` returns stands in the repository under its identifier.
pub get_required-In :
    (n : ℕ) (st : State) {i : Identity}
    → IsConsistent st.items
    → get_required n st ≡ ok i
    → In (i.id, i) st.items × IsValid i.args
unfolding get_required get
get_required-In n st {i} c h = elim (Option-cases (lookup n st.items)) [
  | inl e ↦ absurd (let (o, e₁, e₂) = >>=-eq-ok (get n st.items) _ h in ground arith)
  | inr (x, e) ↦
      let place = lookup-In n x st.items e in
      let entry = All-In IsEntry (n, x) st.items c.stored place in
      let same : x ≡ i = ground (arith, clone_entry (n, x) entry) in
      (
        subst (λ y. In (y.id, y) st.items) same
            (subst (λ k. In (k, x) st.items) (sym entry.key) place),
        subst (λ y. IsValid y.args) same entry.valid,
      )
]

-- No other identity has a link that `i` has.
abbrev pub OwnLinks : Identity → IdentityStore → Type 0
OwnLinks i items =
    (b : ℕ × Identity) (p s : Text)
    → In b items
    → linked p s i ≡ true
    → linked p s b.1 ≡ true
    → b.0 ≡ i.id

pub insert-exclusive :
    (i : Identity) (items : IdentityStore)
    → IsExclusive items
    → OwnLinks i items
    → IsExclusive (insert i.id (stripped i) items)
insert-exclusive i items x own a b p s ia ib la lb =
    go (In-insert i.id (stripped i) a items ia) (In-insert i.id (stripped i) b items ib)
  where
    link : (e : ℕ × Identity) → linked p s e.1 ≡ true → e ≡ (i.id, stripped i) → linked p s i ≡ true
    link e l q = subst (λ y. linked p s y.1 ≡ true) q l

    go : (a ≡ (i.id, stripped i)) ⊎ In a items → (b ≡ (i.id, stripped i)) ⊎ In b items → a.0 ≡ b.0
    go (inl q) (inl r) = ap (λ (y : ℕ × Identity). y.0) (q ∙ sym r)
    go (inl q) (inr r) = ap (λ (y : ℕ × Identity). y.0) q ∙ sym (own b p s r (link a la q) lb)
    go (inr q) (inl r) = own a p s q (link b lb r) la ∙ sym (ap (λ (y : ℕ × Identity). y.0) r)
    go (inr q) (inr r) = x a b p s q r la lb

pub save-IsConsistent :
    (i : Identity) (st : State) {r : Identity × State}
    → IsConsistent st.items
    → IsValid i.args
    → OwnLinks i st.items
    → save_and_publish i st ≡ ok r
    → IsConsistent r.1.items
unfolding save_and_publish save
save-IsConsistent i st {r} c v own h =
    let same : insert i.id (stripped i) st.items ≡ r.1.items = ground (arith, clone_valid i v) in
    subst IsConsistent same (record {
      stored =
          insert-All IsEntry i.id (stripped i) st.items
            (record { key = refl; valid = v; no_events = refl }) c.stored;
      exclusive = insert-exclusive i st.items c.exclusive own;
    })
