-- ===== src/Authorization/Hierarchy/Sorting.antt =====
-- `sorted(ids, key=str)`. The text of an identifier is its 128 bits in hexadecimal digits of fixed
-- places, so the texts are ordered as the numbers are.
use pyiamkit.Prelude.{ℕ, ◌≡◌, inl, inr, ◌⊎◌, List, [], ◌∷◌, leb, if◌then◌else◌, In, arith}

abbrev insert_id : ℕ → List ℕ → List ℕ
insert_id n [] = n ∷ []
insert_id n (m ∷ ms) = if leb n m then n ∷ m ∷ ms else m ∷ insert_id n ms

unfoldable pub sort_ids : List ℕ → List ℕ
sort_ids [] = []
sort_ids (n ∷ ns) = insert_id n (sort_ids ns)

insert-In : (a n : ℕ) (ms : List ℕ) → (a ≡ n) ⊎ In a ms → In a (insert_id n ms)
insert-In a n [] h = h
insert-In a n (m ∷ ms) h = ground (arith, insert-In a n ms)

In-insert : (a n : ℕ) (ms : List ℕ) → In a (insert_id n ms) → (a ≡ n) ⊎ In a ms
In-insert a n [] h = h
In-insert a n (m ∷ ms) h = ground (arith, In-insert a n ms)

pub sort_ids-In : (a : ℕ) (ns : List ℕ) → In a ns → In a (sort_ids ns)
unfolding sort_ids
sort_ids-In a [] h = h
sort_ids-In a (n ∷ ns) (inl e) = insert-In a n (sort_ids ns) (inl e)
sort_ids-In a (n ∷ ns) (inr i) = insert-In a n (sort_ids ns) (inr (sort_ids-In a ns i))

pub In-sort_ids : (a : ℕ) (ns : List ℕ) → In a (sort_ids ns) → In a ns
unfolding sort_ids
In-sort_ids a [] h = h
In-sort_ids a (n ∷ ns) h = ground (arith, In-insert a n (sort_ids ns) h, In-sort_ids a ns)
