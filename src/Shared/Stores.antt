-- ===== src/Shared/Stores.antt =====
-- The in-memory repositories keep copies of aggregates in a dictionary by their identifiers, and give
-- copies away. Each makes its copies by the aggregate's `_rehydrate`, which may raise.
pub mod Laws
pub mod Selection
use pyiamkit.Prelude.{
  ℕ, Bool, Option, none, some, List, [], ◌∷◌, Result, ok, ◌>>=◌, ◌≡◌, leb, lookup, insert, values,
  if◌then◌else◌,
}

-- What a repository has of its aggregates: their identifier, and the copy. A copy is its own copy,
-- and has the identifier of what it was made of.
pub record Copier (E A : Type 0) : Type 0 where
  pub id : A → ℕ
  pub copy : A → Result E A
  pub copy_idem : (a b : A) → copy a ≡ ok b → copy b ≡ ok b
  pub copy_id : (a b : A) → copy a ≡ ok b → id b ≡ id a

-- The order of the texts of two identifiers is that of their numbers.
module _ {A : Type 0} (id : A → ℕ) where
  abbrev pub insert_sorted : A → List A → List A
  insert_sorted a [] = a ∷ []
  insert_sorted a (b ∷ bs) = if leb (id a) (id b) then a ∷ b ∷ bs else b ∷ insert_sorted a bs

  -- `sorted(..., key=lambda item: str(item.id))`.
  unfoldable pub sort_by_id : List A → List A
  sort_by_id [] = []
  sort_by_id (a ∷ bs) = insert_sorted a (sort_by_id bs)

abbrev pub first_match : {A : Type 0} → (A → Bool) → List A → Option A
first_match p [] = none
first_match p (a ∷ cs) = if p a then some a else first_match p cs

module _ {E A : Type 0} (copy : A → Result E A) where
  abbrev pub copied : Option A → Result E (Option A)
  copied none = ok none
  copied (some a) = do b ← copy a; ok (some b)

  unfoldable pub get_copy : ℕ → List (ℕ × A) → Result E (Option A)
  get_copy n items = copied (lookup n items)

  -- The copies of those that pass a test, in their order.
  unfoldable pub copy_matching : (A → Bool) → List A → Result E (List A)
  copy_matching p [] = ok []
  copy_matching p (a ∷ cs) =
      let rest = copy_matching p cs in if p a then (do b ← copy a; bs ← rest; ok (b ∷ bs)) else rest

  -- The copy of the first that passes a test.
  unfoldable pub copy_first : (A → Bool) → List (ℕ × A) → Result E (Option A)
  copy_first p items = copied (first_match p (values items))

-- A comprehension whose condition may raise.
unfoldable pub filter_result : {E A : Type 0} → (A → Result E Bool) → List A → Result E (List A)
filter_result test [] = ok []
filter_result test (a ∷ bs) = do
  passed ← test a
  rest ← filter_result test bs
  ok (if passed then a ∷ rest else rest)

module _ {E A : Type 0} (c : Copier E A) where
  unfoldable pub save_copy : A → List (ℕ × A) → Result E (List (ℕ × A))
  save_copy a items = do b ← c.copy a; ok (insert (c.id a) b items)
