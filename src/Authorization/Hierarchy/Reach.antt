-- ===== src/Authorization/Hierarchy/Reach.antt =====
-- Reachability among the identifiers of Roles, by the declared parents of stored Roles.
use pyiamkit.Prelude.{ℕ, ◌≡◌, sym, ◌∙◌, subst, ◌⊎◌, inl, inr, some, List, In}
use pyiamkit.Authorization.Role.{Role}
use pyiamkit.Authorization.Hierarchy.{RoleRepository}

module _ (roles : RoleRepository) where
  -- A chain of one or more declared parents leads from the stored Role up to the identifier `to`.
  pub data Reaches (to : ℕ) : ℕ → Type 0 where
    parent :
        (from : ℕ) (role : Role)
        → roles.get from ≡ some role
        → In to role.parent_role_ids
        → Reaches to from
    above :
        (from next : ℕ) (role : Role)
        → roles.get from ≡ some role
        → In next role.parent_role_ids
        → Reaches to next
        → Reaches to from

  pub Reaches-trans : (to mid from : ℕ) → Reaches to mid → Reaches mid from → Reaches to from
  Reaches-trans to mid from a (Reaches.parent _ role g i) = above from mid role g i a
  Reaches-trans to mid from a (Reaches.above _ next role g i b) =
      above from next role g i (Reaches-trans to mid next a b)

  -- No Role is above itself.
  abbrev pub IsAcyclic : Type 0
  IsAcyclic = (n : ℕ) → ¬ (Reaches n n)

  -- What stands above an identifier is in any list that has its parents and is closed under parents.
  pub Reaches-In :
      (xs : List ℕ)
      → ((n m : ℕ) (role : Role)
          → In n xs
          → roles.get n ≡ some role
          → In m role.parent_role_ids
          → In m xs)
      → (to from : ℕ)
      → ((role : Role) (m : ℕ) → roles.get from ≡ some role → In m role.parent_role_ids → In m xs)
      → Reaches to from
      → In to xs
  Reaches-In xs closed to from start (Reaches.parent _ role g i) = start role to g i
  Reaches-In xs closed to from start (Reaches.above _ next role g i a) =
      Reaches-In xs closed to next (λ r m f j. closed next m r (start role next g i) f j) a

-- What is reachable where parents were only taken away.
module _ (old new : RoleRepository)
    (kept : (n m : ℕ) (role : Role)
      → new.get n ≡ some role
      → In m role.parent_role_ids
      → (r : Role) × (old.get n ≡ some r) × In m r.parent_role_ids) where
  Reaches-fewer : (to from : ℕ) → Reaches new to from → Reaches old to from
  Reaches-fewer to from (Reaches.parent _ role g i) =
      let (r, f, j) = kept from to role g i in Reaches.parent from r f j
  Reaches-fewer to from (Reaches.above _ next role g i a) =
      let (r, f, j) = kept from next role g i in
      Reaches.above from next r f j (Reaches-fewer to next a)

  pub IsAcyclic-fewer : IsAcyclic old → IsAcyclic new
  IsAcyclic-fewer acyclic n a = acyclic n (Reaches-fewer n n a)

-- Between two repositories that differ at one Role, whose parents in the second are its parents in the
-- first, and at most one new: what is reachable in the second.
module _ (old new : RoleRepository) (child up : ℕ)
    (kept : (n m : ℕ) (role : Role)
      → new.get n ≡ some role
      → In m role.parent_role_ids
      → ((r : Role) × (old.get n ≡ some r) × In m r.parent_role_ids)
        ⊎ ((n ≡ child) × (m ≡ up))) where
  abbrev Through : ℕ → ℕ → Type 0
  Through to from = ((to ≡ up) ⊎ Reaches old to up) × ((from ≡ child) ⊎ Reaches old child from)

  Reaches-changed : (to from : ℕ) → Reaches new to from → Reaches old to from ⊎ Through to from
  Reaches-changed to from (Reaches.parent _ role g i) = elim (kept from to role g i) [
    | inl (r, f, j) ↦ inl (Reaches.parent from r f j)
    | inr (a, b) ↦ inr (inl b, inl a)
  ]
  Reaches-changed to from (Reaches.above _ next role g i a) =
      join (kept from next role g i) (Reaches-changed to next a)
    where
      join :
          ((r : Role) × (old.get from ≡ some r) × In next r.parent_role_ids)
            ⊎ ((from ≡ child) × (next ≡ up))
          → Reaches old to next ⊎ Through to next
          → Reaches old to from ⊎ Through to from
      join (inl (r, f, j)) (inl b) = inl (Reaches.above from next r f j b)
      join (inl (r, f, j)) (inr (t, inl e)) =
          inr (t, inr (Reaches.parent from r f (subst (λ m. In m r.parent_role_ids) e j)))
      join (inl (r, f, j)) (inr (t, inr b)) = inr (t, inr (Reaches.above from next r f j b))
      join (inr (a, e)) (inl b) = inr (inr (subst (Reaches old to) e b), inl a)
      join (inr (a, e)) (inr (t, _)) = inr (t, inl a)

  -- An edge to a Role that is neither the child nor below it closes no cycle.
  pub IsAcyclic-changed : ¬ (child ≡ up) → ¬ (Reaches old child up) → IsAcyclic old → IsAcyclic new
  IsAcyclic-changed other fresh acyclic n a = refute (Reaches-changed n n a)
    where
      refute : Reaches old n n ⊎ Through n n → ⊥
      refute (inl b) = acyclic n b
      refute (inr (inl e, inl f)) = other (sym f ∙ e)
      refute (inr (inl e, inr b)) = fresh (subst (Reaches old child) e b)
      refute (inr (inr b, inl f)) = fresh (subst (λ m. Reaches old m up) f b)
      refute (inr (inr b, inr c)) = fresh (Reaches-trans old child n up c b)
