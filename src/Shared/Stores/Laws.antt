-- ===== src/Shared/Stores/Laws.antt =====
-- A repository of copies: `save` and `get`.
use pyiamkit.Prelude.{
  ℕ, ◌≡◌, refl, sym, ap, ◌∙◌, subst, ◌⊎◌, inl, inr, false, some, List, [], ◌∷◌, ok, ◌==◌, lookup,
  insert, lookup-insert, values, In, All, All-In, insert-All, lookup-In, Distinct, Bool-cases,
  Option-cases, >>=-eq-ok, arith,
}
use pyiamkit.Shared.Stores.{Copier, get_copy, save_copy}

abbrev pub keys {ℓ} : {A : Type ℓ} → List (ℕ × A) → List ℕ
keys [] = []
keys ((k, a) ∷ d) = k ∷ keys d

module _ {A : Type 0} where
  In-keys-insert :
      (j k : ℕ) (a : A) (d : List (ℕ × A)) → In j (keys (insert k a d)) → (j ≡ k) ⊎ In j (keys d)
  In-keys-insert j k a [] i = i
  In-keys-insert j k a ((n, b) ∷ d) i = ground (arith, In-keys-insert j k a d)

  not_In-keys-insert :
      (n k : ℕ) (a : A) (d : List (ℕ × A))
      → ¬ (In n (keys d))
      → k == n ≡ false
      → ¬ (In n (keys (insert k a d)))
  not_In-keys-insert n k a d fresh e i = ground (arith, In-keys-insert n k a d i)

  insert-Distinct :
      (k : ℕ) (a : A) (d : List (ℕ × A)) → Distinct (keys d) → Distinct (keys (insert k a d))
  insert-Distinct k a [] h = ((λ i. i), tt)
  insert-Distinct k a ((n, b) ∷ d) h = elim (Bool-cases (k == n)) [
    | inl e ↦
        let same : k ≡ n = ground arith in rw e (subst (λ x. Distinct (x ∷ keys d)) (sym same) h)
    | inr e ↦ rw e (not_In-keys-insert n k a d h.0 e, insert-Distinct k a d h.1)
  ]

  pub In-keys : (e : ℕ × A) (d : List (ℕ × A)) → In e d → In e.0 (keys d)
  In-keys e [] i = i
  In-keys e ((n, b) ∷ d) (inl q) = inl (ap (λ (x : ℕ × A). x.0) q)
  In-keys e ((n, b) ∷ d) (inr i) = inr (In-keys e d i)

  apart :
      (e : ℕ × A) (d : List (ℕ × A)) {n k : ℕ}
      → ¬ (In n (keys d))
      → k ≡ n
      → In e d
      → e.0 == k ≡ false
  apart e d {n} {k} h q i = elim (Bool-cases (e.0 == k)) [
    | inl p ↦
        let same : e.0 ≡ n = ground arith in
        absurd (h (subst (λ x. In x (keys d)) same (In-keys e d i)))
    | inr p ↦ p
  ]

  -- After a write an entry is the written one, or an old one under another key.
  pub In-insert-Distinct :
      (k : ℕ) (a : A) (e : ℕ × A) (d : List (ℕ × A))
      → Distinct (keys d)
      → In e (insert k a d)
      → (e ≡ (k, a)) ⊎ (In e d × (e.0 == k ≡ false))
  In-insert-Distinct k a e [] h i = ground arith
  In-insert-Distinct k a e ((n, b) ∷ d) h i = elim (Bool-cases (k == n)) [
    | inl q ↦
        let same : k ≡ n = ground arith in
        let other : In e d → e.0 == k ≡ false = λ j. apart e d h.0 same j in ground (arith, other)
    | inr q ↦ ground (arith, In-insert-Distinct k a e d h.1)
  ]

  -- In a dictionary a key has one value.
  pub In-lookup :
      (k : ℕ) (a : A) (d : List (ℕ × A)) → Distinct (keys d) → In (k, a) d → lookup k d ≡ some a
  In-lookup k a [] h i = absurd i
  In-lookup k a ((n, b) ∷ d) h (inl q) =
      let same : k ≡ n = ap (λ (x : ℕ × A). x.0) q in
      let value : a ≡ b = ap (λ (x : ℕ × A). x.1) q in ground arith
  In-lookup k a ((n, b) ∷ d) h (inr i) = elim (Bool-cases (k == n)) [
    | inl e ↦
        let same : k ≡ n = ground arith in
        absurd (h.0 (subst (λ x. In x (keys d)) same (In-keys (k, a) d i)))
    | inr e ↦ rw e (In-lookup k a d h.1 i)
  ]

  pub In-values : (k : ℕ) (a : A) (d : List (ℕ × A)) → In (k, a) d → In a (values d)
  In-values k a [] i = i
  In-values k a ((n, b) ∷ d) (inl q) = inl (ap (λ (x : ℕ × A). x.1) q)
  In-values k a ((n, b) ∷ d) (inr i) = inr (In-values k a d i)

  pub values-In : (a : A) (d : List (ℕ × A)) → In a (values d) → (k : ℕ) × In (k, a) d
  values-In a [] i = absurd i
  values-In a ((n, b) ∷ d) (inl q) = (n, inl (ap (λ x. (n, x)) q))
  values-In a ((n, b) ∷ d) (inr i) = let (k, j) = values-In a d i in (k, inr j)

module _ {E A : Type 0} (c : Copier E A) where
  -- The aggregate is a copy, and stands under its identifier.
  pub record IsEntry (e : ℕ × A) : Type 0 where
    pub key : c.id e.1 ≡ e.0
    pub same : c.copy e.1 ≡ ok e.1

  -- What a repository holds: such entries, one to an identifier.
  pub record IsStore (items : List (ℕ × A)) : Type 0 where
    pub distinct : Distinct (keys items)
    pub entries : All IsEntry items

  pub empty-IsStore : IsStore []
  empty-IsStore = record { distinct = tt; entries = tt }

  pub get_copy-lookup :
      (n : ℕ) (items : List (ℕ × A)) → IsStore items → get_copy c.copy n items ≡ ok (lookup n items)
  unfolding get_copy
  get_copy-lookup n items s = elim (Option-cases (lookup n items)) [
    | inl e ↦ rw e refl
    | inr (a, e) ↦
        rw e (rw ((All-In IsEntry (n, a) items s.entries (lookup-In n a items e)).same) refl)
  ]

  -- A `get` that finds something, by the entries.
  pub get_copy-In :
      (n : ℕ) (items : List (ℕ × A)) {a : A}
      → IsStore items
      → get_copy c.copy n items ≡ ok (some a)
      → In (n, a) items × (c.id a ≡ n) × (c.copy a ≡ ok a)
  get_copy-In n items {a} s h =
      let found : lookup n items ≡ some a = ground (arith, get_copy-lookup n items s) in
      let place = lookup-In n a items found in
      let e = All-In IsEntry (n, a) items s.entries place in (place, e.key, e.same)

  -- A `save` that returns keeps the repository well formed; then `get` of the identifier gives the
  -- copy that was made, and `get` of any other what it gave before.
  pub save_copy-get_copy :
      (a : A) (items : List (ℕ × A)) {items' : List (ℕ × A)}
      → IsStore items
      → save_copy c a items ≡ ok items'
      → (b : A) × (c.copy a ≡ ok b)
        × IsStore items'
        × (items' ≡ insert (c.id a) b items)
        × (get_copy c.copy (c.id a) items' ≡ ok (some b))
        × ((n : ℕ) → n == c.id a ≡ false → get_copy c.copy n items' ≡ get_copy c.copy n items)
  unfolding save_copy
  save_copy-get_copy a items {items'} s h =
      let (b, e, h₁) = >>=-eq-ok (c.copy a) _ h in
      let out : insert (c.id a) b items ≡ items' = ground arith in
      let stored : IsStore (insert (c.id a) b items) = record {
        distinct = insert-Distinct (c.id a) b items s.distinct;
        entries =
            insert-All IsEntry (c.id a) b items
              (record { key = c.copy_id a b e; same = c.copy_idem a b e }) s.entries;
      } in
      let s' = subst IsStore out stored in
      (
        b,
        e,
        s',
        sym out,
        get_copy-lookup (c.id a) items' s'
            ∙ ap ok (subst (λ x. lookup (c.id a) x ≡ some b) out (lookup_new b)),
        λ n o.
            get_copy-lookup n items' s'
            ∙ ap ok (subst (λ x. lookup n x ≡ lookup n items) out (lookup_old b n o))
            ∙ sym (get_copy-lookup n items s),
      )
    where
      lookup_new : (b : A) → lookup (c.id a) (insert (c.id a) b items) ≡ some b
      lookup_new b = ground (arith, lookup-insert (c.id a) (c.id a) b items)

      lookup_old :
          (b : A) (n : ℕ)
          → n == c.id a ≡ false
          → lookup n (insert (c.id a) b items) ≡ lookup n items
      lookup_old b n o = ground (arith, lookup-insert n (c.id a) b items)
