-- ===== src/Identity/Service/Subjects.antt =====
-- What `find_by_external_subject` finds.
use pyiamkit.Prelude.{
  ℕ, ◌≡◌, refl, sym, ap, subst, inl, inr, true, false, Option, none, some, [], ◌∷◌, ok, Text, strip,
  All-In, In, Bool-cases, Option-cases, arith,
}
use pyiamkit.Identity.Aggregate.{Identity}
use pyiamkit.Identity.Memory.{IdentityStore, linked, find_linked, find_by_external_subject}
use pyiamkit.Identity.Service.Entries.{IsEntry, IsConsistent, clone_entry}

pub find_linked-none :
    (p s : Text) (items : IdentityStore) (b : ℕ × Identity)
    → find_linked p s items ≡ none
    → In b items
    → linked p s b.1 ≡ false
unfolding find_linked
find_linked-none p s [] b h i = absurd i
find_linked-none p s ((k, x) ∷ items) b h (inl e) =
    let same : b.1 ≡ x = ap (λ (y : ℕ × Identity). y.1) e in
    subst (λ y. linked p s y ≡ false) (sym same) (ground arith)
find_linked-none p s ((k, x) ∷ items) b h (inr i) = find_linked-none p s items b (ground arith) i

pub find_linked-some :
    (p s : Text) (items : IdentityStore) {x : Identity}
    → find_linked p s items ≡ some x
    → (k : ℕ) × In (k, x) items × (linked p s x ≡ true)
unfolding find_linked
find_linked-some p s [] h = absurd (cc h)
find_linked-some p s ((k, y) ∷ items) {x} h = elim (Bool-cases (linked p s y)) [
  | inl e ↦
      let same : y ≡ x = ground arith in
      (k, inl (ap (λ z. (k, z)) (sym same)), subst (λ z. linked p s z ≡ true) same e)
  | inr e ↦ let (j, i, l) = find_linked-some p s items {x = x} (ground arith) in (j, inr i, l)
]

pub find-cloned :
    (p s : Text) (items : IdentityStore)
    → IsConsistent items
    → find_by_external_subject p s items ≡ ok (find_linked (strip p) (strip s) items)
unfolding find_by_external_subject
find-cloned p s items c = elim (Option-cases (find_linked (strip p) (strip s) items)) [
  | inl e ↦ rw e refl
  | inr (x, e) ↦
      let (k, i, l) = find_linked-some (strip p) (strip s) items e in
      rw e (rw (clone_entry (k, x) (All-In IsEntry (k, x) items c.stored i)) refl)
]

-- In a repository where every entry is a valid clone under its identifier, and no subject of a
-- provider is linked to two identities, `find_by_external_subject` gives the identity that the
-- subject is linked to, whichever entry it is, and nothing exactly if it is linked to none.
pub find_by_external_subject-exact :
    (p s : Text) (items : IdentityStore)
    → IsConsistent items
    → (found : Option Identity) × (find_by_external_subject p s items ≡ ok found)
      × ((b : ℕ × Identity)
          → In b items
          → linked (strip p) (strip s) b.1 ≡ true
          → (i : Identity) × (found ≡ some i) × (i.id ≡ b.0))
      × ((i : Identity)
          → found ≡ some i
          → In (i.id, i) items × (linked (strip p) (strip s) i ≡ true))
find_by_external_subject-exact p s items c = (
  find_linked (strip p) (strip s) items,
  find-cloned p s items c,
  λ b i l. elim (Option-cases (find_linked (strip p) (strip s) items)) [
    | inl e ↦ absurd (ground (arith, find_linked-none (strip p) (strip s) items b e i))
    | inr (x, e) ↦
        let (place, l') = found x e in
        (x, e, c.exclusive (x.id, x) b (strip p) (strip s) place i l' l)
  ],
  found,
)
  where
    found :
        (i : Identity)
        → find_linked (strip p) (strip s) items ≡ some i
        → In (i.id, i) items × (linked (strip p) (strip s) i ≡ true)
    found x e =
        let (k, i, l) = find_linked-some (strip p) (strip s) items e in
        (subst (λ j. In (j, x) items) (sym (All-In IsEntry (k, x) items c.stored i).key) i, l)
