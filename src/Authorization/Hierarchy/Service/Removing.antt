-- ===== src/Authorization/Hierarchy/Service/Removing.antt =====
-- What `remove_parent_role` changes of the hierarchy, and what it leaves where it raises.
use pyiamkit.Prelude.{
  ℕ, ◌≡◌, refl, ap, ◌∙◌, subst, ◌⊎◌, inl, inr, true, not, ◌&&◌, Option, some, ok, err, Result-cases,
  ◌==◌, contains, In, nat_eq, Distinct,
}
use pyiamkit.Shared.{DateTime}
use pyiamkit.Authorization.Role.{Role, rehydrate, is_active}
use pyiamkit.Authorization.Role
use pyiamkit.Authorization.Hierarchy.Service.Links.{
  rehydrate-kept, removed-parents, without_parent-ok,
}
use pyiamkit.Authorization.Hierarchy.Changes.{ServiceError, authorization, without_parent}
use pyiamkit.Authorization.Hierarchy.Service.{RolePort, State, EventSink, remove_parent_role}
use pyiamkit.Authorization.Hierarchy.Service.Saving.{Saved, ended, save_role-cases}

module _ {S : Type 0} (port : RolePort S) (sink : EventSink) where
  -- What a call of `remove_parent_role` has done where it saved the Role as `b` and the sink raised `o`.
  pub record Removed (role_id parent_id : ℕ) (now : DateTime) (st : State S) (b : Role)
      (st' : State S) (o : Option ServiceError) : Type 0 where
    pub role : Role
    pub changed : Role
    pub stored : (port.roles st.store).get role_id ≡ some role
    pub available : is_active role.status ≡ true
    pub removed : Role.remove_parent_role parent_id now role ≡ ok changed
    pub saved : Saved port sink role_id changed st b st' o
    pub same : b.id ≡ role_id
    pub fewer : (m : ℕ) → In m b.parent_role_ids → In m role.parent_role_ids
    pub parents :
        Distinct role.parent_role_ids
        → (m : ℕ)
        → contains m b.parent_role_ids ≡ (not (m == parent_id) && contains m role.parent_role_ids)

  Removed-intro :
      (role_id parent_id : ℕ) (now : DateTime) (st : State S) (b role changed : Role)
      (st' : State S) (o : Option ServiceError)
      → (port.roles st.store).get role_id ≡ some role
      → is_active role.status ≡ true
      → Role.remove_parent_role parent_id now role ≡ ok changed
      → Saved port sink changed.id changed st b st' o
      → Removed role_id parent_id now st b st' o
  Removed-intro role_id parent_id now st b role changed st' o g a h v =
      let (kept, _, id) = rehydrate-kept changed.args v.copied in
      let own : changed.id ≡ role_id =
        (removed-parents parent_id parent_id now role h).0
        ∙ (port.roles st.store).get_id role_id role g in
      record {
        role = role;
        changed = changed;
        stored = g;
        available = a;
        removed = h;
        saved = subst (λ n. Saved port sink n changed st b st' o) own v;
        same = id ∙ own;
        fewer = λ m i. (removed-parents parent_id m now role h).1 (subst (In m) kept i);
        parents = λ d m. ap (contains m) kept ∙ (removed-parents parent_id m now role h).2 d;
      }

  -- `remove_parent_role` either saves the changed Role or leaves everything as it was. Where it saves,
  -- the Role was stored and active, the Role that is then stored under the identifier has the parents
  -- that it had but for the one, no other Role is changed, and the method ends as the sink does. Where
  -- nothing is saved it raises, and the repository and the published events are as they were.
  pub remove_parent_role-Removed :
      (now : DateTime) (role_id parent_id : ℕ) (st : State S)
      → ((b : Role) × (st' : State S) × (o : Option ServiceError) × (remove_parent_role port sink
              now role_id parent_id st
            ≡ (ended port sink o b, st'))
          × Removed role_id parent_id now st b st' o)
        ⊎ ((e : ServiceError) × (remove_parent_role port sink now role_id parent_id st
              ≡ (err e, st)))
  unfolding remove_parent_role
  remove_parent_role-Removed now role_id parent_id st =
      elim (Result-cases (without_parent (port.roles st.store) now role_id parent_id)) [
        | inr (e, h) ↦ inr (e, rw h refl)
        | inl (changed, h) ↦
            let (role, g, a, _, f) =
              without_parent-ok (port.roles st.store) now role_id parent_id h in
            elim (save_role-cases port sink changed st) [
              | inr (e, k) ↦ inr (authorization e, rw h k)
              | inl (b, st', o, k, v) ↦ inl (
                b,
                st',
                o,
                rw h k,
                Removed-intro role_id parent_id now st b role changed st' o g a f v,
              )
            ]
      ]
