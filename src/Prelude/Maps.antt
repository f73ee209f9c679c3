-- ===== src/Prelude/Maps.antt =====
-- What holds of every entry of a dictionary: `insert` and `lookup`.
use mathlib.Core.Path.{◌≡◌, refl, ap}
use mathlib.Core.Logic.{◌⊎◌, inl, inr}
use mathlib.Core.Option.{none, some}
use mathlib.Core.Bool.{Bool, false, ◌||◌}
use mathlib.Core.List.{List, [], ◌∷◌, ◌++◌}
use Prim.Native.Nat.{ℕ}
use native.Mathlib.Omega.{arith}
use pyiamkit.Prelude.Tests.{◌==◌, Bool-cases, if◌then◌else◌}
use pyiamkit.Prelude.Lists.{All, In, lookup, insert, values, any, filter}

module _ {V : Type 0} where
  pub insert-All :
      (P : ℕ × V → Type 0) (k : ℕ) (v : V) (d : List (ℕ × V))
      → P (k, v)
      → All P d
      → All P (insert k v d)
  insert-All P k v [] p h = (p, tt)
  insert-All P k v ((j, w) ∷ d) p h = elim (Bool-cases (k == j)) [
    | inl e ↦ rw e (p, h.1)
    | inr e ↦ rw e (h.0, insert-All P k v d p h.1)
  ]

  pub In-insert :
      (k : ℕ) (v : V) (e : ℕ × V) (d : List (ℕ × V)) → In e (insert k v d) → (e ≡ (k, v)) ⊎ In e d
  In-insert k v e [] i = i
  In-insert k v e ((j, w) ∷ d) i = ground (arith, In-insert k v e d)

  pub lookup-In : (k : ℕ) (v : V) (d : List (ℕ × V)) → lookup k d ≡ some v → In (k, v) d
  lookup-In k v [] h = absurd (cc h)
  lookup-In k v ((j, w) ∷ d) h = ground (arith, lookup-In k v d)

  pub insert_fresh :
      (k : ℕ) (a : V) (d : List (ℕ × V))
      → lookup k d ≡ none
      → values (insert k a d) ≡ values d ++ a ∷ []
  insert_fresh k a [] h = refl
  insert_fresh k a ((j, b) ∷ d) h = ground (arith, insert_fresh k a d)

  pub In-insert_new : (k : ℕ) (a : V) (d : List (ℕ × V)) → In (k, a) (insert k a d)
  In-insert_new k a [] = inl refl
  In-insert_new k a ((j, b) ∷ d) = ground (arith, In-insert_new k a d)

  pub In-insert_other :
      (k j : ℕ) (a b : V) (d : List (ℕ × V))
      → k == j ≡ false
      → In (k, a) d
      → In (k, a) (insert j b d)
  In-insert_other k j a b [] o h = absurd h
  In-insert_other k j a b ((i, c) ∷ d) o (inl e) =
      let same : k ≡ i = ap (λ (x : ℕ × V). x.0) e in ground arith
  In-insert_other k j a b ((i, c) ∷ d) o (inr h) = ground (arith, In-insert_other k j a b d o h)

pub any-append :
    {A : Type 0} (p : A → Bool) (xs ys : List A) → any p (xs ++ ys) ≡ (any p xs || any p ys)
any-append p [] ys = refl
any-append p (x ∷ xs) ys = ground (arith, any-append p xs ys)

pub filter-snoc :
    {A : Type 0} (p : A → Bool) (a : A) (xs : List A)
    → filter p (xs ++ a ∷ []) ≡ filter p xs ++ (if p a then a ∷ [] else [])
filter-snoc p a [] = ground arith
filter-snoc p a (x ∷ xs) = ground (arith, filter-snoc p a xs)
