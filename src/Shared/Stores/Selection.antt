-- ===== src/Shared/Stores/Selection.antt =====
-- What the comprehensions over a repository give.
use pyiamkit.Prelude.{
  ℕ, ◌≡◌, refl, sym, subst, ◌⊎◌, ◌↔◌, inl, inr, Bool, true, false, none, some, List, [], ◌∷◌,
  Result, ok, values, In, All-In, filter, In-filter, filter-In, Bool-cases, arith,
}
use pyiamkit.Shared.Stores.{
  Copier, insert_sorted, sort_by_id, copy_matching, first_match, filter_result,
}
use pyiamkit.Shared.Stores.Laws.{IsEntry, IsStore, values-In}

module _ {A : Type 0} (id : A → ℕ) where
  insert_sorted-In : (a b : A) (bs : List A) → (a ≡ b) ⊎ In a bs → In a (insert_sorted id b bs)
  insert_sorted-In a b [] h = h
  insert_sorted-In a b (x ∷ bs) h = ground (arith, insert_sorted-In a b bs)

  In-insert_sorted : (a b : A) (bs : List A) → In a (insert_sorted id b bs) → (a ≡ b) ⊎ In a bs
  In-insert_sorted a b [] h = h
  In-insert_sorted a b (x ∷ bs) h = ground (arith, In-insert_sorted a b bs)

  pub sort_by_id-In : (a : A) (bs : List A) → In a bs → In a (sort_by_id id bs)
  unfolding sort_by_id
  sort_by_id-In a [] h = h
  sort_by_id-In a (b ∷ bs) (inl e) = insert_sorted-In a b (sort_by_id id bs) (inl e)
  sort_by_id-In a (b ∷ bs) (inr i) =
      insert_sorted-In a b (sort_by_id id bs) (inr (sort_by_id-In a bs i))

  pub In-sort_by_id : (a : A) (bs : List A) → In a (sort_by_id id bs) → In a bs
  unfolding sort_by_id
  In-sort_by_id a [] h = h
  In-sort_by_id a (b ∷ bs) h = elim (In-insert_sorted a b (sort_by_id id bs) h) [
    | inl e ↦ inl e
    | inr i ↦ inr (In-sort_by_id a bs i)
  ]

pub filter_result-filter :
    {E A : Type 0} (test : A → Result E Bool) (p : A → Bool) (bs : List A)
    → ((a : A) → test a ≡ ok (p a))
    → filter_result test bs ≡ ok (filter p bs)
unfolding filter_result
filter_result-filter test p [] h = refl
filter_result-filter test p (b ∷ bs) h = rw (h b, filter_result-filter test p bs h) refl

module _ {E A : Type 0} (c : Copier E A) where
  copy_matching-filter :
      (p : A → Bool) (bs : List A)
      → ((a : A) → In a bs → c.copy a ≡ ok a)
      → copy_matching c.copy p bs ≡ ok (filter p bs)
  unfolding copy_matching
  copy_matching-filter p [] h = refl
  copy_matching-filter p (b ∷ bs) h =
      let rest = copy_matching-filter p bs (λ a i. h a (inr i)) in
      ground (arith, rest, h b (inl refl))

  entry_copy :
      (items : List (ℕ × A)) (a : A) → IsStore c items → In a (values items) → c.copy a ≡ ok a
  entry_copy items a s i =
      let (k, j) = values-In a items i in (All-In (IsEntry c) (k, a) items s.entries j).same

  -- The copies of those that pass a test, sorted by their identifiers: all of them, and no others.
  pub copy_matching-exact :
      (p : A → Bool) (items : List (ℕ × A))
      → IsStore c items
      → (found : List A) × (copy_matching c.copy p (sort_by_id c.id (values items)) ≡ ok found)
        × ((a : A) → In a found ↔ (In a (values items) × (p a ≡ true)))
  copy_matching-exact p items s =
      let sorted = sort_by_id c.id (values items) in
      (
        filter p sorted,
        copy_matching-filter p sorted
            (λ a i. entry_copy items a s (In-sort_by_id c.id a (values items) i)),
        λ a. (
          (λ i. let (j, t) = In-filter p a sorted i in (In-sort_by_id c.id a (values items) j, t)),
          λ (i, t). filter-In p a sorted (sort_by_id-In c.id a (values items) i) t,
        ),
      )

module _ {A : Type 0} where
  pub first_match-In :
      (p : A → Bool) (bs : List A) {a : A} → first_match p bs ≡ some a → In a bs × (p a ≡ true)
  first_match-In p [] h = absurd (cc h)
  first_match-In p (b ∷ bs) {a} h = elim (Bool-cases (p b)) [
    | inl e ↦ let same : b ≡ a = ground arith in (inl (sym same), subst (λ x. p x ≡ true) same e)
    | inr e ↦ let (i, t) = first_match-In p bs {a = a} (ground arith) in (inr i, t)
  ]

  pub first_match-none :
      (p : A → Bool) (bs : List A) (a : A) → first_match p bs ≡ none → In a bs → p a ≡ false
  first_match-none p [] a h i = absurd i
  first_match-none p (b ∷ bs) a h (inl e) = subst (λ x. p x ≡ false) (sym e) (ground arith)
  first_match-none p (b ∷ bs) a h (inr i) = first_match-none p bs a (ground arith) i
