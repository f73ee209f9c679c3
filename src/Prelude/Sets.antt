-- ===== src/Prelude/Sets.antt =====
-- A set as a list without repetitions: what `add` and `remove` do to membership.
use mathlib.Core.Path.{◌≡◌, refl, sym}
use mathlib.Core.Logic.{◌⊎◌, inl, inr}
use mathlib.Core.Bool.{false, not, ◌&&◌, ◌||◌}
use mathlib.Core.List.{List, [], ◌∷◌, ◌++◌}
use native.Mathlib.Omega.{arith}
use pyiamkit.Prelude.Tests.{Bool-cases}
use pyiamkit.Prelude.Lists.{
  Eq, In, contains, contains→In, In→contains, add, remove, Distinct, In-append,
}

module _ {A : Type 0} ⦃e : Eq A⦄ where
  pub contains-append :
      (a : A) (xs ys : List A) → contains a (xs ++ ys) ≡ (contains a xs || contains a ys)
  contains-append a [] ys = refl
  contains-append a (x ∷ xs) ys = ground (arith, contains-append a xs ys)

  pub contains-add : (a b : A) (xs : List A) → contains b (add a xs) ≡ (e.beq b a || contains b xs)
  contains-add a b xs = ground (arith, contains-append b xs (a ∷ []), e.beq_iff b a)

  pub not_contains→In : (a : A) (xs : List A) → contains a xs ≡ false → ¬ (In a xs)
  not_contains→In a xs h i = ground (arith, In→contains a xs i)

  pub not_In→contains : (a : A) (xs : List A) → ¬ (In a xs) → contains a xs ≡ false
  not_In→contains a xs h = elim (Bool-cases (contains a xs)) [
    | inl p ↦ absurd (h (contains→In a xs p))
    | inr q ↦ q
  ]

  pub In-remove : (a b : A) (xs : List A) → In b (remove a xs) → In b xs
  In-remove a b [] h = h
  In-remove a b (x ∷ xs) h = ground (arith, In-remove a b xs)

  Distinct-snoc : (a : A) (xs : List A) → Distinct xs → ¬ (In a xs) → Distinct (xs ++ a ∷ [])
  Distinct-snoc a [] d h = (λ i. i, tt)
  Distinct-snoc a (x ∷ xs) d h =
      (λ i. fresh (In-append x xs (a ∷ []) i), Distinct-snoc a xs d.1 (λ i. h (inr i)))
    where
      fresh : In x xs ⊎ In x (a ∷ []) → ⊥
      fresh (inl i) = d.0 i
      fresh (inr (inl p)) = h (inl (sym p))
      fresh (inr (inr z)) = z

  pub add-Distinct : (a : A) (xs : List A) → Distinct xs → Distinct (add a xs)
  add-Distinct a xs d = elim (Bool-cases (contains a xs)) [
    | inl p ↦ rw p d
    | inr q ↦ rw q (Distinct-snoc a xs d (not_contains→In a xs q))
  ]

  pub remove-Distinct : (a : A) (xs : List A) → Distinct xs → Distinct (remove a xs)
  remove-Distinct a [] d = tt
  remove-Distinct a (x ∷ xs) d = elim (Bool-cases (e.beq a x)) [
    | inl p ↦ rw p d.1
    | inr q ↦ rw q ((λ i. d.0 (In-remove a x xs i)), remove-Distinct a xs d.1)
  ]

  pub contains-remove :
      (a b : A) (xs : List A)
      → Distinct xs
      → contains b (remove a xs) ≡ (not (e.beq b a) && contains b xs)
  contains-remove a b [] d = ground arith
  contains-remove a b (x ∷ xs) d = ground (
    arith,
    e.beq_iff a x,
    e.beq_iff b a,
    e.beq_iff b x,
    not_In→contains x xs d.0,
    contains-remove a b xs d.1,
  )

  -- What was added last, and was not there before, is taken away again.
  pub remove-add : (a : A) (xs : List A) → contains a xs ≡ false → remove a (add a xs) ≡ xs
  remove-add a xs h = rw h (last xs h)
    where
      last : (ys : List A) → contains a ys ≡ false → remove a (ys ++ a ∷ []) ≡ ys
      last [] q = ground (arith, e.beq_iff a a)
      last (y ∷ ys) q = ground (arith, last ys)
