-- ===== src/Authorization/Memory/Bindings.antt =====
-- What the repository of bindings gives back.
use pyiamkit.Prelude.{
  ℕ, ◌≡◌, refl, sym, ◌↔◌, inl, inr, Bool, true, false, some, List, [], ◌∷◌, ok, ◌==◌, insert,
  lookup-insert, values, In, All, filter, In-filter, filter-In, if◌then◌else◌, Bool-cases, ==_iff,
  subst, >>=-eq-ok, arith,
}
use pyiamkit.Shared.{DateTime, is_utc}
use pyiamkit.Authorization.RoleBinding.{RoleBinding, active_at, is_active, rehydrate}
use pyiamkit.Authorization.RoleBinding.Lifecycle.{IsValid, init_rehydrates}
use pyiamkit.Authorization.Engine.Repositories.{IsActiveBinding}
use pyiamkit.Authorization.Memory.{
  BindingStore, copy, get, save, is_of, find_for_subject, keep_active, find_active_for_subject,
}

-- A copy that the repository keeps: a valid binding without pending events.
pub record IsCopy (b : RoleBinding) : Type 0 where
  pub valid : IsValid b.args
  pub no_events : b.pending_events ≡ []

-- Every item is such a copy.
abbrev pub IsStored : BindingStore → Type 0
IsStored items = All (λ x. IsCopy x.1) items

abbrev pub saved : RoleBinding → RoleBinding
saved b = record b { pending_events = [] }

copy-saved : (b : RoleBinding) → IsValid b.args → copy b ≡ ok (saved b)
unfolding copy rehydrate
copy-saved b v = init_rehydrates b v

pub copy-same : (b : RoleBinding) → IsCopy b → copy b ≡ ok b
copy-same b c = ground (arith, copy-saved b c.valid, c.no_events)

insert-IsStored :
    (n : ℕ) (b : RoleBinding) (items : BindingStore)
    → IsCopy b
    → IsStored items
    → IsStored (insert n b items)
insert-IsStored n b [] c s = (c, tt)
insert-IsStored n b ((k, x) ∷ items) c s = elim (Bool-cases (n == k)) [
  | inl e ↦ rw e (c, s.1)
  | inr e ↦ rw e (s.0, insert-IsStored n b items c s.1)
]

-- On a repository that keeps valid copies, `save` of a valid binding succeeds and keeps valid
-- copies; `get` of its identifier then gives the binding without its pending events, and `get` of
-- any other what it gave before.
pub get-save :
    (b : RoleBinding) (items : BindingStore)
    → IsStored items
    → IsValid b.args
    → (items' : BindingStore) × (save b items ≡ ok items')
      × IsStored items'
      × (get b.id items' ≡ ok (some (saved b)))
      × ((n : ℕ) → n == b.id ≡ false → get n items' ≡ get n items)
unfolding save get
get-save b items s v =
    let e = copy-saved b v in
    (
      insert b.id (saved b) items,
      rw e refl,
      insert-IsStored b.id (saved b) items (record { valid = v; no_events = refl }) s,
      rw (lookup-insert b.id b.id (saved b) items, (==_iff b.id b.id).1 refl)
          (rw (copy-saved (saved b) v) refl),
      λ n h. rw (lookup-insert n b.id (saved b) items, h) refl,
    )

find_for_subject-filter :
    (identity tenant : ℕ) (items : BindingStore)
    → IsStored items
    → find_for_subject identity tenant items ≡ ok (filter (is_of identity tenant) (values items))
unfolding find_for_subject
find_for_subject-filter identity tenant [] s = refl
find_for_subject-filter identity tenant ((k, b) ∷ items) s =
    ground (arith, find_for_subject-filter identity tenant items s.1, copy-same b s.0)

keep_active-filter :
    (at : DateTime) (bs : List RoleBinding)
    → is_utc at ≡ true
    → keep_active at bs ≡ ok (filter (λ b. active_at at b.args) bs)
unfolding keep_active is_active
keep_active-filter at [] u = refl
keep_active-filter at (b ∷ bs) u = rw (u, keep_active-filter at bs u) refl

-- On a repository that keeps valid copies, at a moment in UTC, `find_active_for_subject` returns
-- the stored bindings of the subject in the tenant that are active: all of them, and no others.
pub find_active_for_subject-exact :
    (identity tenant : ℕ) (at : DateTime) (items : BindingStore)
    → IsStored items
    → is_utc at ≡ true
    → (bs : List RoleBinding) × (find_active_for_subject identity tenant at items ≡ ok bs)
      × ((b : RoleBinding)
          → In b bs ↔ (
              In b (values items)
              × (b.identity_id ≡ identity)
              × (b.tenant_id ≡ tenant)
              × (active_at at b.args ≡ true)))
unfolding find_active_for_subject
find_active_for_subject-exact identity tenant at items s u =
    let mine = filter (is_of identity tenant) (values items) in
    (
      filter (λ b. active_at at b.args) mine,
      rw (find_for_subject-filter identity tenant items s) (keep_active-filter at mine u),
      λ b. (
        (λ i.
            let (j, a) = In-filter (λ x. active_at at x.args) b mine i in
            let (l, o) = In-filter (is_of identity tenant) b (values items) j in
            (l, ground arith, ground arith, a)),
        λ (i, p, q, a).
            filter-In (λ x. active_at at x.args) b mine
              (filter-In (is_of identity tenant) b (values items) i (ground arith)) a,
      ),
    )

values-IsCopy :
    (items : BindingStore) (b : RoleBinding) → IsStored items → In b (values items) → IsCopy b
values-IsCopy [] b s i = absurd i
values-IsCopy ((k, x) ∷ items) b s (inl e) = subst IsCopy (sym e) s.0
values-IsCopy ((k, x) ∷ items) b s (inr i) = values-IsCopy items b s.1 i

is_active-eq :
    (at : DateTime) (b : RoleBinding) {a : Bool} → is_active at b ≡ ok a → active_at at b.args ≡ a
unfolding is_active
is_active-eq at b h = ground arith

keep_active-In :
    (at : DateTime) (bs cs : List RoleBinding) (b : RoleBinding)
    → keep_active at bs ≡ ok cs
    → In b cs
    → In b bs × (active_at at b.args ≡ true)
unfolding keep_active
keep_active-In at [] cs b h i =
    let out : [] ≡ cs = ground arith in absurd (subst (In b) (sym out) i)
keep_active-In at (x ∷ bs) cs b h i =
    let (a, e, h₁) = >>=-eq-ok (is_active at x) _ h in
    let (rest, e₂, h₂) = >>=-eq-ok (keep_active at bs) _ h₁ in
    let out : (if a then x ∷ rest else rest) ≡ cs = ground arith in
    go rest a (is_active-eq at x e) (subst (In b) (sym out) i)
      (λ j. keep_active-In at bs rest b e₂ j)
  where
    go :
        (rest : List RoleBinding) (a : Bool)
        → active_at at x.args ≡ a
        → In b (if a then x ∷ rest else rest)
        → (In b rest → In b bs × (active_at at b.args ≡ true))
        → In b (x ∷ bs) × (active_at at b.args ≡ true)
    go rest true e (inl same) f = (inl same, subst (λ y. active_at at y.args ≡ true) (sym same) e)
    go rest true e (inr j) f = let (k, t) = f j in (inr k, t)
    go rest false e j f = let (k, t) = f j in (inr k, t)

-- On a repository that keeps valid copies, what `find_active_for_subject` returns is what the
-- engine takes from its port: each binding is well formed, of the subject, in the tenant, and
-- active at the moment.
pub find_active_for_subject-IsActiveBinding :
    (identity tenant : ℕ) (at : DateTime) (items : BindingStore) (bs : List RoleBinding)
    (b : RoleBinding)
    → IsStored items
    → find_active_for_subject identity tenant at items ≡ ok bs
    → In b bs
    → IsActiveBinding identity tenant at b
unfolding find_active_for_subject
find_active_for_subject-IsActiveBinding identity tenant at items bs b s h i =
    let (mine, e, h₁) = >>=-eq-ok (find_for_subject identity tenant items) _ h in
    let same : filter (is_of identity tenant) (values items) ≡ mine =
      ground (arith, find_for_subject-filter identity tenant items s) in
    let (j, a) = keep_active-In at mine bs b h₁ i in
    let (k, o) = In-filter (is_of identity tenant) b (values items) (subst (In b) (sym same) j) in
    record {
      valid = (values-IsCopy items b s k).valid;
      of_subject = ground arith;
      in_tenant = ground arith;
      active = a;
    }
