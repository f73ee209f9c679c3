-- ===== src/Authorization/Hierarchy/Service/Saving.antt =====
-- What `_save_role` and `add_parent_role` (src/pyiamkit/authorization/hierarchy.py) change of the
-- hierarchy, and what they leave where they raise.
use pyiamkit.Prelude.{
  ℕ, ◌≡◌, refl, sym, ◌∙◌, subst, ◌⊎◌, inl, inr, ◌↔◌, false, Option, Option-cases, none, some, List,
  [], ◌++◌, Result, ok, err, Result-cases, Bool-cases, ◌==◌, In, nat_eq, arith,
}
use pyiamkit.Shared.{DateTime, DomainEvent}
use pyiamkit.Authorization.Values.{AuthorizationCatalogEventType, AuthorizationError}
use pyiamkit.Authorization.Role.{Role, rehydrate, is_active}
use pyiamkit.Authorization.Role
use pyiamkit.Authorization.Hierarchy.Service.Links.{
  Linked, rehydrate-kept, added-parents, with_parent-Linked,
}
use pyiamkit.Authorization.Hierarchy.Changes.{ServiceError, authorization, with_parent}
use pyiamkit.Authorization.Hierarchy.Service.{
  RolePort, State, EventSink, save_role, add_parent_role,
}

module _ {S : Type 0} (port : RolePort S) (sink : EventSink) where
  -- What is published: the events of the change where it raised nothing, and else none.
  abbrev Delivered : Option ServiceError → Role → State S → State S → Type 0
  Delivered none r st st' = st'.published ≡ st.published ++ r.pending_events
  Delivered (some e) r st st' = st'.published ≡ st.published

  -- How a method ends behind a save, by what the sink raised.
  abbrev pub ended : Option ServiceError → Role → Result ServiceError Role
  ended none b = ok b
  ended (some e) b = err e

  -- What `_save_role` has done where the repository saved the Role as `b`, under the identifier `n`,
  -- and the sink raised `o`.
  pub record Saved (n : ℕ) (r : Role) (st : State S) (b : Role) (st' : State S)
      (o : Option ServiceError) : Type 0 where
    pub copied : rehydrate r.args ≡ ok b
    pub found : (port.roles st'.store).get n ≡ some b
    pub others :
        (k : ℕ) → k == n ≡ false → (port.roles st'.store).get k ≡ (port.roles st.store).get k
    pub raised : sink st.published r.pending_events ≡ o
    pub events : Delivered o r st st'

  -- What `_save_role` makes of what the repository says.
  pub save_role-cases :
      (r : Role) (st : State S)
      → ((b : Role) × (st' : State S) × (o : Option ServiceError) × (save_role port sink r st
            ≡ (ended o b, st'))
          × Saved r.id r st b st' o)
        ⊎ ((e : AuthorizationError) × (save_role port sink r st ≡ (err (authorization e), st)))
  unfolding save_role
  save_role-cases r st = out (port.save bare st.store) refl
    where
      bare : Role
      bare = record r { pending_events = [] }

      out :
          (o : Result AuthorizationError S)
          → port.save bare st.store ≡ o
          → ((b : Role) × (st' : State S) × (o : Option ServiceError) × (save_role port sink r st
                ≡ (ended o b, st'))
              × Saved r.id r st b st' o)
            ⊎ ((e : AuthorizationError) × (save_role port sink r st ≡ (err (authorization e), st)))
      out (err e) f = inr (e, rw f refl)
      out (ok s') f =
          let (b, e, g, kept) = port.save-get bare st.store s' f in
          elim (Option-cases (sink st.published r.pending_events)) [
            | inl q ↦ inl (
              b,
              record { store = s'; published = st.published ++ r.pending_events },
              none,
              rw (f, q, g) refl,
              record { copied = e; found = g; others = kept; raised = q; events = refl },
            )
            | inr (x, q) ↦ inl (
              b,
              record { store = s'; published = st.published },
              some x,
              rw (f, q) refl,
              record { copied = e; found = g; others = kept; raised = q; events = refl },
            )
          ]

  -- Where the repository saves the Role and the sink raises nothing, `_save_role` returns.
  pub save_role-returns :
      (r : Role) (st : State S) (s' : S)
      → port.save (record r { pending_events = [] }) st.store ≡ ok s'
      → ((taken given : List (DomainEvent AuthorizationCatalogEventType)) → sink taken given ≡ none)
      → (b : Role) × (st' : State S) × (save_role port sink r st ≡ (ok b, st'))
  unfolding save_role
  save_role-returns r st s' f accepts =
      let (b, _, g, _) = port.save-get (record r { pending_events = [] }) st.store s' f in
      (
        b,
        record { store = s'; published = st.published ++ r.pending_events },
        rw (f, accepts st.published r.pending_events, g) refl,
      )

  -- What a call of `add_parent_role` has checked and done where it saved the Role as `b` and the sink
  -- raised `o`.
  pub record Added (role_id parent_id : ℕ) (now : DateTime) (st : State S) (b : Role)
      (st' : State S) (o : Option ServiceError) : Type 0 where
    pub role : Role
    pub parent : Role
    pub changed : Role
    pub linked : Linked (port.roles st.store) role_id parent_id role parent
    pub added : Role.add_parent_role parent_id now role ≡ ok changed
    pub saved : Saved role_id changed st b st' o
    pub same : b.id ≡ role_id
    pub parents : (m : ℕ) → In m b.parent_role_ids ↔ ((m ≡ parent_id) ⊎ In m role.parent_role_ids)

  Added-intro :
      (role_id parent_id : ℕ) (now : DateTime) (st : State S) (b role parent changed : Role)
      (st' : State S) (o : Option ServiceError)
      → role.id ≡ role_id
      → Linked (port.roles st.store) role_id parent_id role parent
      → Role.add_parent_role parent_id now role ≡ ok changed
      → Saved changed.id changed st b st' o
      → Added role_id parent_id now st b st' o
  Added-intro role_id parent_id now st b role parent changed st' o i l h v =
      let (kept, _, id) = rehydrate-kept changed.args v.copied in
      let own : changed.id ≡ role_id = (added-parents parent_id parent_id now role h).0 ∙ i in
      record {
        role = role;
        parent = parent;
        changed = changed;
        linked = l;
        added = h;
        saved = subst (λ n. Saved n changed st b st' o) own v;
        same = id ∙ own;
        parents = λ m.
            subst (λ ps. In m ps ↔ ((m ≡ parent_id) ⊎ In m role.parent_role_ids)) (sym kept)
              (added-parents parent_id m now role h).1;
      }

  -- `add_parent_role` either saves the changed Role or leaves everything as it was. Where it saves, the
  -- two Roles were stored and active, their tenants allow the edge, and the parent is neither the Role
  -- nor below it; the Role that is then stored under the identifier has the parents that the Role had
  -- and the new one; no other Role is changed; and then, if the event sink raises nothing on the
  -- events of the change, these are published and the method returns the stored Role, and else they
  -- are not counted as published and the method raises what the sink raised, with the Role stored. Where nothing is saved, the
  -- method raises, and the repository and the published events are as they were.
  pub add_parent_role-Added :
      (max_depth : ℕ) (now : DateTime) (role_id parent_id : ℕ) (st : State S)
      → ((b : Role) × (st' : State S) × (o : Option ServiceError) × (add_parent_role port sink
              max_depth now role_id parent_id st
            ≡ (ended o b, st'))
          × Added role_id parent_id now st b st' o)
        ⊎ ((e : ServiceError) × (add_parent_role port sink max_depth now role_id parent_id st
              ≡ (err e, st)))
  unfolding add_parent_role
  add_parent_role-Added max_depth now role_id parent_id st =
      elim (Result-cases (with_parent (port.roles st.store) max_depth now role_id parent_id)) [
        | inr (e, h) ↦ inr (e, rw h refl)
        | inl (changed, h) ↦
            let (role, parent, l, f) =
              with_parent-Linked (port.roles st.store) max_depth now role_id parent_id h in
            elim (save_role-cases changed st) [
              | inr (e, k) ↦ inr (authorization e, rw h k)
              | inl (b, st', o, k, v) ↦ inl (
                b,
                st',
                o,
                rw h k,
                Added-intro role_id parent_id now st b role parent changed st' o
                    ((port.roles st.store).get_id role_id role l.stored) l f v,
              )
            ]
      ]

  -- A Role that is stored after a `_save_role` is the saved one, or was stored before.
  pub stored-Saved :
      (n : ℕ) (r : Role) (st : State S) (b : Role) (st' : State S) (o : Option ServiceError)
      → Saved n r st b st' o
      → (k : ℕ) (x : Role) → (port.roles st'.store).get k ≡ some x
      → ((k ≡ n) × (x ≡ b)) ⊎ ((port.roles st.store).get k ≡ some x)
  stored-Saved n r st b st' o v k x g = elim (Bool-cases (k == n)) [
    | inl e ↦
        let same : k ≡ n = ground arith in
        let found : (port.roles st'.store).get k ≡ some b = rw same v.found in
        inl (same, ground arith)
    | inr e ↦ inr (sym (v.others k e) ∙ g)
  ]
