-- ===== src/Tests/Links.antt =====
-- The service on the hierarchy, on the in-memory repository with a viewer and an auditor.
use pyiamkit.Prelude.{
  ℕ, ◌≡◌, refl, ◌↔◌, ◌⊎◌, List, [], ◌∷◌, Option, none, some, strip, ok, err, In, lookup, arith,
}
use pyiamkit.Shared.Stores.Laws.{IsStore}
use pyiamkit.Authorization.Role.{Role, rehydrate, init, normalize_name, pull_events}
use pyiamkit.Authorization.Role
use pyiamkit.Authorization.Hierarchy.{
  ancestor_ids, collect_ancestors, collect_parents, require_available, next_parent, validate_edge,
}
use pyiamkit.Authorization.Hierarchy.Sorting.{sort_ids}
use pyiamkit.Authorization.Hierarchy.Reach.{Reaches, IsAcyclic}
use pyiamkit.Authorization.Hierarchy.Ancestors.{ancestor_ids-exact}
use pyiamkit.Authorization.Hierarchy.Changes.{
  ServiceError, sink_error, with_parent, require_role, closes_cycle,
}
use pyiamkit.Authorization.Hierarchy.Service.{State, EventSink, add_parent_role}
use pyiamkit.Authorization.Hierarchy.Service
use pyiamkit.Authorization.Hierarchy.Service.Saving.{Added, ended, add_parent_role-Added}
use pyiamkit.Authorization.Hierarchy.Service.Returning.{add_parent_role-returns}
use pyiamkit.Authorization.Hierarchy.Service.Acyclic.{Call, run, graph, hierarchy-IsAcyclic}
use pyiamkit.Authorization.Memory.Roles.{
  Items, Store, roles, copy, save, save_role, repository, in_memory,
}
use pyiamkit.Tests.Data.{two_roles, viewer, noon, role_args}

above_editor : ancestor_ids two_roles 3 2 ≡ ok (1 ∷ [])
unfolding ancestor_ids collect_ancestors collect_parents require_available next_parent sort_ids
above_editor = refl

ancestor_ids-exact_example : In {A = ℕ} 1 (1 ∷ []) ↔ Reaches two_roles 1 2
ancestor_ids-exact_example = ancestor_ids-exact two_roles 3 2 above_editor 1

-- A Role without parents.
abbrev auditor : Role
auditor = record { args = role_args 2 [] []; pending_events = [] }

abbrev items : Items
items = (1, viewer) ∷ (2, auditor) ∷ []

items-IsStore : IsStore roles items
unfolding copy rehydrate init normalize_name strip
items-IsStore = record {
  distinct = (ground arith, ((λ i. i), tt));
  entries = (record { key = refl; same = refl }, (record { key = refl; same = refl }, tt));
}

abbrev sink : EventSink
sink taken given = none

abbrev down : EventSink
down taken given = some (sink_error 1)

abbrev start : State Store
start = record { store = record { items = items; holds = items-IsStore }; published = [] }

start-IsAcyclic : IsAcyclic (repository start.store)
start-IsAcyclic n (Reaches.parent _ r g i) = ground arith
start-IsAcyclic n (Reaches.above _ m r g i a) = ground arith

unreached : ¬ (Reaches (repository start.store) 2 1)
unreached (Reaches.parent _ r g i) = ground arith
unreached (Reaches.above _ m r g i a) = ground arith

-- Of the two calls the first adds a parent, and the second would close a cycle.
abbrev parents : Option Role → List ℕ
parents none = []
parents (some r) = r.parent_role_ids

abbrev linked : State Store
linked = run in_memory sink 3 ((noon, Call.adds 2 1) ∷ (noon, Call.adds 1 2) ∷ []) start

-- The sink is down, and the Role is stored.
saved_unpublished :
    ((add_parent_role in_memory down 3 noon 2 1 start).0 ≡ err (sink_error 1))
    × (parents (lookup 2 (add_parent_role in_memory down 3 noon 2 1 start).1.store.items) ≡ 1 ∷ [])
unfolding add_parent_role with_parent require_role validate_edge closes_cycle ancestor_ids
    collect_ancestors collect_parents require_available next_parent sort_ids Service.save_role
    save_role save copy rehydrate init normalize_name Role.add_parent_role pull_events strip
saved_unpublished = (refl, refl)

links_once :
    (parents (lookup 2 linked.store.items) ≡ 1 ∷ []) × (parents (lookup 1 linked.store.items) ≡ [])
unfolding run add_parent_role with_parent require_role validate_edge closes_cycle ancestor_ids
    collect_ancestors collect_parents require_available next_parent sort_ids Service.save_role
    save_role save copy rehydrate init normalize_name Role.add_parent_role pull_events strip
links_once = (refl, refl)

hierarchy-IsAcyclic_example : IsAcyclic (graph in_memory sink 3 linked)
hierarchy-IsAcyclic_example =
    hierarchy-IsAcyclic in_memory sink 3 ((noon, Call.adds 2 1) ∷ (noon, Call.adds 1 2) ∷ []) start
      start-IsAcyclic

add_parent_role-Added_example :
    ((b : Role) × (st' : State Store) × (o : Option ServiceError) × (add_parent_role in_memory sink
          3 noon 2 1 start
        ≡ (ended in_memory sink o b, st'))
      × Added in_memory sink 2 1 noon start b st' o)
    ⊎ ((e : ServiceError) × (add_parent_role in_memory sink 3 noon 2 1 start ≡ (err e, start)))
add_parent_role-Added_example = add_parent_role-Added in_memory sink 3 noon 2 1 start

add_parent_role-returns_example :
    (b : Role) × (st' : State Store) × (add_parent_role in_memory sink 3 noon 2 1 start
      ≡ (ok b, st'))
add_parent_role-returns_example =
    add_parent_role-returns sink 3 noon start auditor viewer refl refl refl refl refl
      (λ e. ground arith) unreached refl start-IsAcyclic (λ n i. absurd i) (λ taken given. refl)
