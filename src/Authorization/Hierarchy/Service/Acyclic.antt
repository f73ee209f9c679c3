-- ===== src/Authorization/Hierarchy/Service/Acyclic.antt =====
-- That the hierarchy stays without cycles.
use pyiamkit.Prelude.{ℕ, ◌≡◌, subst, ◌⊎◌, inl, inr, Option, some, List, [], ◌∷◌, Result, In}
use pyiamkit.Shared.{DateTime}
use pyiamkit.Authorization.Role.{Role}
use pyiamkit.Authorization.Hierarchy.{RoleRepository}
use pyiamkit.Authorization.Hierarchy.Reach.{IsAcyclic, IsAcyclic-fewer, IsAcyclic-changed}
use pyiamkit.Authorization.Hierarchy.Service.Saving.{Added, stored-Saved, add_parent_role-Added}
use pyiamkit.Authorization.Hierarchy.Service.Removing.{Removed, remove_parent_role-Removed}
use pyiamkit.Authorization.Hierarchy.Changes.{ServiceError}
use pyiamkit.Authorization.Hierarchy.Service.{
  RolePort, State, EventSink, add_parent_role, remove_parent_role,
}

-- The two methods, with their Role and parent.
pub data Call : Type 0 where
  adds removes : ℕ → ℕ → Call

module _ {S : Type 0} (port : RolePort S) (sink : EventSink) (max_depth : ℕ) where
  abbrev pub call : Call → DateTime → State S → Result ServiceError Role × State S
  call (Call.adds r p) now = add_parent_role port sink max_depth now r p
  call (Call.removes r p) now = remove_parent_role port sink now r p

  -- A caller that goes on where a method raises.
  unfoldable pub run : List (DateTime × Call) → State S → State S
  run [] st = st
  run ((now, c) ∷ cs) st = run cs (call c now st).1

  abbrev pub graph : State S → RoleRepository
  graph st = port.roles st.store

  Added-IsAcyclic :
      (role_id parent_id : ℕ) (now : DateTime) (st : State S) (b : Role) (st' : State S)
      (o : Option ServiceError)
      → Added port sink role_id parent_id now st b st' o
      → IsAcyclic (graph st)
      → IsAcyclic (graph st')
  Added-IsAcyclic role_id parent_id now st b st' o a =
      IsAcyclic-changed (graph st) (graph st') role_id parent_id kept a.linked.other a.linked.above
    where
      Kept : ℕ → ℕ → Type 0
      Kept n m =
          ((x : Role) × ((graph st).get n ≡ some x) × In m x.parent_role_ids)
          ⊎ ((n ≡ role_id) × (m ≡ parent_id))

      own : (n m : ℕ) → n ≡ role_id → (m ≡ parent_id) ⊎ In m a.role.parent_role_ids → Kept n m
      own n m e (inl q) = inr (e, q)
      own n m e (inr j) = inl (a.role, rw e a.linked.stored, j)

      kept : (n m : ℕ) (r : Role) → (graph st').get n ≡ some r → In m r.parent_role_ids → Kept n m
      kept n m r g i = elim (stored-Saved port sink role_id a.changed st b st' o a.saved n r g) [
        | inl (e, same) ↦
            own n m e ((a.parents m).0 (subst (λ (x : Role). In m x.parent_role_ids) same i))
        | inr old ↦ inl (r, old, i)
      ]

  Removed-IsAcyclic :
      (role_id parent_id : ℕ) (now : DateTime) (st : State S) (b : Role) (st' : State S)
      (o : Option ServiceError)
      → Removed port sink role_id parent_id now st b st' o
      → IsAcyclic (graph st)
      → IsAcyclic (graph st')
  Removed-IsAcyclic role_id parent_id now st b st' o a =
      IsAcyclic-fewer (graph st) (graph st') (λ n m r g i.
        elim (stored-Saved port sink role_id a.changed st b st' o a.saved n r g) [
          | inl (e, same) ↦ (
            a.role,
            rw e a.stored,
            a.fewer m (subst (λ (x : Role). In m x.parent_role_ids) same i),
          )
          | inr old ↦ (r, old, i)
        ])

  call-IsAcyclic :
      (c : Call) (now : DateTime) (st : State S)
      → IsAcyclic (graph st)
      → IsAcyclic (graph (call c now st).1)
  call-IsAcyclic (Call.adds r p) now st a =
      elim (add_parent_role-Added port sink max_depth now r p st) [
        | inl (b, st', o, h, d) ↦ rw h (Added-IsAcyclic r p now st b st' o d a)
        | inr (e, h) ↦ rw h a
      ]
  call-IsAcyclic (Call.removes r p) now st a =
      elim (remove_parent_role-Removed port sink now r p st) [
        | inl (b, st', o, h, d) ↦ rw h (Removed-IsAcyclic r p now st b st' o d a)
        | inr (e, h) ↦ rw h a
      ]

  -- Whatever calls of `add_parent_role` and `remove_parent_role` are made, in any order and whether
  -- they return or raise, and whatever the event sink raises after a Role was saved: in a repository where no Role was above itself, through parents that are
  -- stored, of any status, none comes to be above itself.
  pub hierarchy-IsAcyclic :
      (cs : List (DateTime × Call)) (st : State S)
      → IsAcyclic (graph st)
      → IsAcyclic (graph (run cs st))
  unfolding run
  hierarchy-IsAcyclic [] st a = a
  hierarchy-IsAcyclic ((now, c) ∷ cs) st a =
      hierarchy-IsAcyclic cs (call c now st).1 (call-IsAcyclic c now st a)
