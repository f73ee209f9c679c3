-- ===== src/Identity/Memory.antt =====
-- src/pyiamkit/identity/adapters/memory/repository.py: InMemoryIdentityRepository. The dictionary
-- keeps clones, which `_rehydrate` makes and which may therefore raise.
use pyiamkit.Prelude.{
  ℕ, Bool, Option, none, some, List, [], ◌∷◌, Result, ok, ◌>>=◌, lookup, insert, any, Text, strip,
  if◌then◌else◌,
}
use pyiamkit.Identity.Values.{IdentityError}
use pyiamkit.Identity.Aggregate.{Identity, IdentityResult, rehydrate, is_link}

-- `_items`.
abbrev pub IdentityStore : Type 0
IdentityStore = List (ℕ × Identity)

-- `_clone`.
unfoldable pub clone : Identity → IdentityResult
clone i = rehydrate i.args

abbrev cloned : Option Identity → Result IdentityError (Option Identity)
cloned none = ok none
cloned (some i) = do c ← clone i; ok (some c)

unfoldable pub get : ℕ → IdentityStore → Result IdentityError (Option Identity)
get n items = cloned (lookup n items)

unfoldable pub save : Identity → IdentityStore → Result IdentityError IdentityStore
save i items = do c ← clone i; ok (insert i.id c items)

-- `identity_id in self._items`.
unfoldable pub exists : ℕ → IdentityStore → Bool
exists n items = elim (lookup n items) [ none ↦ Bool.false | some i ↦ Bool.true ]

-- The identity has a link to the subject of the provider.
abbrev pub linked : Text → Text → Identity → Bool
linked provider subject i = any (is_link provider subject) i.external_links

-- The loop of `find_by_external_subject`.
unfoldable pub find_linked : Text → Text → IdentityStore → Option Identity
find_linked provider subject [] = none
find_linked provider subject ((_, i) ∷ items) =
    if linked provider subject i then some i else find_linked provider subject items

unfoldable pub find_by_external_subject :
    Text → Text → IdentityStore → Result IdentityError (Option Identity)
unfolding find_linked
find_by_external_subject provider subject items =
    cloned (find_linked (strip provider) (strip subject) items)
