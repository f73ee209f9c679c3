-- ===== src/Authorization/Assignment/Changes.antt =====
-- What the changes of a stored binding leave.
use pyiamkit.Prelude.{
  ℕ, ◌≡◌, sym, ap, ◌∙◌, subst, false, some, [], ◌∷◌, ◌++◌, ok, >>=-eq-ok, or_raise-eq-ok, map_err,
  map_err-eq-ok, ◌==◌, lookup, Bool-cases, Option-cases, inl, inr, arith,
}
use pyiamkit.Shared.{DateTime}
use pyiamkit.Authorization.RoleBinding.{RoleBinding, RoleBindingArgs, event}
use pyiamkit.Authorization.RoleBinding.Lifecycle.{
  Call, call, call-IsValid, binding-Outcome, Outcome, next_status, moved, event_of,
}
use pyiamkit.Authorization.Memory.{BindingStore, get}
use pyiamkit.Authorization.Memory.Bindings.{IsCopy, IsStored, saved, copy-same}
use pyiamkit.Authorization.Assignment.Assigned.{save_binding-ok}
use pyiamkit.Authorization.Assignment.{State, authorization, require_binding, change_binding}

lookup-IsCopy :
    (n : ℕ) (items : BindingStore) (b : RoleBinding)
    → IsStored items
    → lookup n items ≡ some b
    → IsCopy b
lookup-IsCopy n [] b s h = absurd (cc h)
lookup-IsCopy n ((k, x) ∷ items) b s h = elim (Bool-cases (n == k)) [
  | inl e ↦ let same : x ≡ b = ground arith in subst IsCopy same s.0
  | inr e ↦ lookup-IsCopy n items b s.1 (ground arith)
]

get-IsCopy :
    (n : ℕ) (items : BindingStore) (b : RoleBinding)
    → IsStored items
    → get n items ≡ ok (some b)
    → IsCopy b
unfolding get
get-IsCopy n items b s h = elim (Option-cases (lookup n items)) [
  | inl e ↦ ground arith
  | inr (x, e) ↦
      let c = lookup-IsCopy n items x s e in
      let f = copy-same x c in let same : x ≡ b = ground arith in subst IsCopy same c
]

-- On a repository that keeps valid copies, a change that returns was allowed by the diagram for the
-- binding that stood under the identifier; it stores that binding moved along the arrow, with one
-- version more, changes no other, and publishes the change's event alone.
pub change_binding-moved :
    (c : Call) (now : DateTime) (n : ℕ) (st : State) {b' : RoleBinding} {st' : State}
    → IsStored st.items
    → change_binding (call c now) n st ≡ ok (b', st')
    → (b : RoleBinding) × (get n st.items ≡ ok (some b))
      × (next_status c b.status ≡ some b'.status)
      × (b'.args ≡ moved b'.status now b.args)
      × IsStored st'.items
      × (get b.id st'.items ≡ ok (some b'))
      × ((m : ℕ) → m == b.id ≡ false → get m st'.items ≡ get m st.items)
      × (st'.published ≡ st.published ++ event (event_of c) now b.args ∷ [])
unfolding change_binding require_binding
change_binding-moved c now n st {b'} {st'} s h =
    let (b, e, h₁) = >>=-eq-ok (require_binding n st) _ h in
    let (x, e₂, h₂) = >>=-eq-ok (map_err authorization (call c now b)) _ h₁ in
    let (found, e₃, h₃) = >>=-eq-ok (map_err authorization (get n st.items)) _ e in
    let got : get n st.items ≡ ok (some b) = map_err-eq-ok _ _ e₃ ∙ ap ok (or_raise-eq-ok _ _ h₃) in
    let copy = get-IsCopy n st.items b s got in
    let called = map_err-eq-ok _ _ e₂ in
    let valid = call-IsValid c now b copy.valid called in
    let (same, kept, here, there, pub_eq) = save_binding-ok x st s valid h₂ in
    finish b x got copy.no_events (subst (Outcome c now b) called (binding-Outcome c now b)) same
      kept here there pub_eq
  where
    finish :
        (b x : RoleBinding)
        → get n st.items ≡ ok (some b)
        → b.pending_events ≡ []
        → Outcome c now b (ok x)
        → b' ≡ saved x
        → IsStored st'.items
        → get x.id st'.items ≡ ok (some (saved x))
        → ((m : ℕ) → m == x.id ≡ false → get m st'.items ≡ get m st.items)
        → st'.published ≡ st.published ++ x.pending_events
        → (b : RoleBinding) × (get n st.items ≡ ok (some b))
          × (next_status c b.status ≡ some b'.status)
          × (b'.args ≡ moved b'.status now b.args)
          × IsStored st'.items
          × (get b.id st'.items ≡ ok (some b'))
          × ((m : ℕ) → m == b.id ≡ false → get m st'.items ≡ get m st.items)
          × (st'.published ≡ st.published ++ event (event_of c) now b.args ∷ [])
    finish b x got none_yet (u, arrow, args, events) same kept here there published =
        let same_id : x.id ≡ b.id = ap (λ (a : RoleBindingArgs). a.id) args in
        (
          b,
          got,
          subst (λ (y : RoleBinding). next_status c b.status ≡ some y.status) (sym same) arrow,
          subst (λ (y : RoleBinding). y.args ≡ moved y.status now b.args) (sym same) args,
          kept,
          subst (λ k. get k st'.items ≡ ok (some b')) same_id
              (subst (λ y. get x.id st'.items ≡ ok (some y)) (sym same) here),
          subst (λ k. (m : ℕ) → m == k ≡ false → get m st'.items ≡ get m st.items) same_id there,
          published
              ∙ ap (λ es. st.published ++ es)
                  (events ∙ ap (λ es. es ++ event (event_of c) now b.args ∷ []) none_yet),
        )
