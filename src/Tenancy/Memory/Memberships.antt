-- ===== src/Tenancy/Memory/Memberships.antt =====
-- src/pyiamkit/tenancy/adapters/memory.py: InMemoryMembershipRepository.
use pyiamkit.Prelude.{
  ℕ, ◌≡◌, ◌∙◌, ap, subst, inl, inr, Bool, true, ◌&&◌, Option, none, some, Option-cases, List, [],
  Result, ok, ◌>>=◌, >>=-eq-ok, ◌==◌, values, In, All-In, if◌then◌else◌, arith,
}
use pyiamkit.Shared.{DateTime}
use pyiamkit.Shared.Stores.{Copier, get_copy, save_copy, copy_first, first_match}
use pyiamkit.Shared.Stores.Laws.{IsStore, IsEntry, values-In}
use pyiamkit.Shared.Stores.Selection.{first_match-In}
use pyiamkit.Tenancy.Values.{TenancyError}
use pyiamkit.Tenancy.Membership.{
  Membership, MembershipResult, init, rehydrate, is_active, active_at,
}
use pyiamkit.Tenancy.Membership.Lifecycle.{IsValid, init-IsValid, init_rehydrates}

-- `_items`.
abbrev pub Items : Type 0
Items = List (ℕ × Membership)

-- `_copy`.
unfoldable pub copy : Membership → MembershipResult
copy m = rehydrate m.args

init_no_events : (a b : Membership) → init a.args ≡ ok b → b.pending_events ≡ []
unfolding init
init_no_events a b h = ground arith

pub copy_idem : (a b : Membership) → copy a ≡ ok b → copy b ≡ ok b
unfolding copy rehydrate
copy_idem a b h =
    let again = init_rehydrates b (init-IsValid a.args h) in
    let bare = init_no_events a b h in ground arith

pub copy_id : (a b : Membership) → copy a ≡ ok b → b.id ≡ a.id
unfolding copy rehydrate init
copy_id a b h = ground arith

abbrev pub memberships : Copier TenancyError Membership
memberships = record {
  id = λ (m : Membership). m.id;
  copy = copy;
  copy_idem = copy_idem;
  copy_id = copy_id;
}

unfoldable pub get : ℕ → Items → Result TenancyError (Option Membership)
unfolding get_copy
get n items = get_copy copy n items

unfoldable pub save : Membership → Items → Result TenancyError Items
unfolding save_copy
save m items = save_copy memberships m items

abbrev pub is_of : ℕ → ℕ → Membership → Bool
is_of identity tenant m = m.identity_id == identity && m.tenant_id == tenant

unfoldable pub find : ℕ → ℕ → Items → Result TenancyError (Option Membership)
unfolding copy_first
find identity tenant items = copy_first copy (is_of identity tenant) items

-- What `find_active` makes of what `find` gave.
abbrev pub active_or_none : DateTime → Option Membership → Result TenancyError (Option Membership)
active_or_none at none = ok none
active_or_none at (some m) = do active ← is_active at m; ok (if active then some m else none)

unfoldable pub find_active : ℕ → ℕ → DateTime → Items → Result TenancyError (Option Membership)
unfolding find
find_active identity tenant at items = find identity tenant items >>= active_or_none at

-- A stored Membership is its own copy, and so it is valid.
find-stored :
    (identity tenant : ℕ) (items : Items) {m : Membership}
    → IsStore memberships items
    → find identity tenant items ≡ ok (some m)
    → In m (values items) × (is_of identity tenant m ≡ true) × IsValid m.args
unfolding find copy rehydrate
find-stored identity tenant items {m} s h =
    elim (Option-cases (first_match (is_of identity tenant) (values items))) [
      | inl e ↦ absurd (ground arith)
      | inr (x, e) ↦
          let (i, o) = first_match-In (is_of identity tenant) (values items) e in
          let (k, j) = values-In x items i in
          let same = (All-In (IsEntry memberships) (k, x) items s.entries j).same in
          let out : x ≡ m = ground arith in
          subst
            (λ (y : Membership).
              In y (values items) × (is_of identity tenant y ≡ true) × IsValid y.args)
            out (i, o, init-IsValid x.args same)
    ]

active_or_none-some :
    (at : DateTime) (m n : Membership)
    → active_or_none at (some m) ≡ ok (some n)
    → (m ≡ n) × (active_at at m.args ≡ true)
unfolding is_active
active_or_none-some at m n h = ground arith

-- What `find_active` gives is stored, is of the identity and the tenant, is valid, and is active at the
-- moment.
pub find_active-stored :
    (identity tenant : ℕ) (at : DateTime) (items : Items) {m : Membership}
    → IsStore memberships items
    → find_active identity tenant at items ≡ ok (some m)
    → In m (values items)
      × (m.identity_id ≡ identity)
      × (m.tenant_id ≡ tenant)
      × IsValid m.args
      × (active_at at m.args ≡ true)
unfolding find_active
find_active-stored identity tenant at items {m} s h =
    let (found, e, f) = >>=-eq-ok (find identity tenant items) (active_or_none at) h in
    pick found e f
  where
    pick :
        (found : Option Membership)
        → find identity tenant items ≡ ok found
        → active_or_none at found ≡ ok (some m)
        → In m (values items)
          × (m.identity_id ≡ identity)
          × (m.tenant_id ≡ tenant)
          × IsValid m.args
          × (active_at at m.args ≡ true)
    pick none e f = absurd (ground arith)
    pick (some x) e f =
        let (same, a) = active_or_none-some at x m f in
        let (i, o, v) = find-stored identity tenant items s (e ∙ ap (λ y. ok (some y)) same) in
        (
          i,
          ground arith,
          ground arith,
          v,
          subst (λ (y : Membership). active_at at y.args ≡ true) same a,
        )
