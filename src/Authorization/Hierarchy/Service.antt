-- ===== src/Authorization/Hierarchy/Service.antt =====
-- src/pyiamkit/authorization/hierarchy.py: the RoleHierarchyApplicationService, on any repository of
-- Roles that can be written.
pub mod Links
pub mod Saving
pub mod Removing
pub mod Acyclic
pub mod Returning
use pyiamkit.Prelude.{
  ℕ, ◌≡◌, false, Option, none, some, List, ◌++◌, Result, ok, err, ◌==◌, or_raise,
}
use pyiamkit.Prelude.Actions.{Action, continue, ◌>>=◌, ◌>>◌, lift}
use pyiamkit.Shared.{DateTime, DomainEvent}
use pyiamkit.Authorization.Values.{AuthorizationCatalogEventType, AuthorizationError}
use pyiamkit.Authorization.Role.{Role, rehydrate, pull_events}
use pyiamkit.Authorization.Hierarchy.{RoleRepository}
use pyiamkit.Authorization.Hierarchy.Changes.{
  ServiceError, authorization, runtime_error, with_parent, without_parent,
}

-- The port `RoleRepository` with its `save`, over what the repository keeps: a Role that was saved is
-- found under its identifier, as `_rehydrate` gives it, and no other Role is changed.
pub record RolePort (S : Type 0) : Type 0 where
  pub roles : S → RoleRepository
  pub save : Role → S → Result AuthorizationError S
  pub save-get :
      (r : Role) (s s' : S)
      → save r s ≡ ok s'
      → (b : Role) × (rehydrate r.args ≡ ok b)
        × ((roles s').get r.id ≡ some b)
        × ((n : ℕ) → n == r.id ≡ false → (roles s').get n ≡ (roles s).get n)

-- What the repository keeps, and the events of the calls of `publish` that returned.
pub record State (S : Type 0) : Type 0 where
  pub store : S
  pub published : List (DomainEvent AuthorizationCatalogEventType)

-- The event sink of the application: what its `publish` raises on events, if anything, after those
-- that it was given before.
abbrev pub EventSink : Type 0
EventSink =
    List (DomainEvent AuthorizationCatalogEventType)
    → List (DomainEvent AuthorizationCatalogEventType)
    → Option ServiceError

module _ {S : Type 0} (port : RolePort S) (sink : EventSink) where
  abbrev pub Method : Type 0 → Type 0
  Method A = Action (State S) ServiceError A

  abbrev pub get_role : ℕ → Method (Option Role)
  get_role n st = (ok ((port.roles st.store).get n), st)

  abbrev pub stored : Result AuthorizationError S → Method (Unit {0})
  stored (ok s) st = (ok tt, record st { store = s })
  stored (err e) st = (err (authorization e), st)

  abbrev pub put_role : Role → Method (Unit {0})
  put_role r st = stored (port.save r st.store) st

  -- By what `publish` of the sink raises; what the sink keeps where it raises is not modelled.
  abbrev pub delivered :
      Option ServiceError → List (DomainEvent AuthorizationCatalogEventType) → Method (Unit {0})
  delivered none events st = (ok tt, record st { published = st.published ++ events })
  delivered (some e) events st = (err e, st)

  abbrev pub publish : List (DomainEvent AuthorizationCatalogEventType) → Method (Unit {0})
  publish events st = delivered (sink st.published events) events st

  -- `_save_role`.
  unfoldable pub save_role : Role → Method Role
  unfolding pull_events
  save_role r = do
    let (events, pulled) = pull_events r
    put_role pulled
    publish events
    saved ← get_role r.id
    lift (or_raise saved runtime_error)

  unfoldable pub add_parent_role : ℕ → DateTime → ℕ → ℕ → Method Role
  unfolding with_parent save_role
  add_parent_role max_depth now role_id parent_role_id st =
      continue (with_parent (port.roles st.store) max_depth now role_id parent_role_id, st)
        save_role

  unfoldable pub remove_parent_role : DateTime → ℕ → ℕ → Method Role
  unfolding without_parent save_role
  remove_parent_role now role_id parent_role_id st =
      continue (without_parent (port.roles st.store) now role_id parent_role_id, st) save_role
