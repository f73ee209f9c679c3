-- ===== src/Operations/State/Freshness.antt =====
-- A stamp changes exactly with the bumps that concern its subject and its tenant.
use pyiamkit.Prelude.{
  ℕ, ◌+◌, ◌≡◌, ◌≤◌, ◌<◌, refl, inl, inr, Bool, true, false, not, ◌&&◌, List, [], ◌∷◌, ap, ◌∙◌, any,
  Bool-cases, ◌==◌, ==_iff, arith,
}
use pyiamkit.Operations.State.{
  SecurityStateStamp, stamp_beq, StateStore, stamp_for, bump_runtime_generation, bump_identity,
  bump_tenant, bump_membership, bump_subject_authorization, bump_tenant_authorization,
  bump_global_authorization, bump_governance, bump_authentication,
}

-- The nine methods that advance a version.
pub data Bump : Type 0 where
  of_runtime of_global : Bump
  of_identity of_tenant of_tenant_authorization of_governance of_authentication : ℕ → Bump
  of_membership of_subject : ℕ → ℕ → Bump

abbrev pub bump : Bump → StateStore → ℕ × StateStore
bump of_runtime = bump_runtime_generation
bump of_global = bump_global_authorization
bump (of_identity i) = bump_identity i
bump (of_tenant t) = bump_tenant t
bump (of_tenant_authorization t) = bump_tenant_authorization t
bump (of_governance t) = bump_governance t
bump (of_authentication i) = bump_authentication i
bump (of_membership i t) = bump_membership i t
bump (of_subject i t) = bump_subject_authorization i t

-- The bump concerns what an identity may do in a tenant.
abbrev pub concerns : ℕ → ℕ → Bump → Bool
concerns i t of_runtime = true
concerns i t of_global = true
concerns i t (of_identity j) = i == j
concerns i t (of_tenant u) = t == u
concerns i t (of_tenant_authorization u) = t == u
concerns i t (of_governance u) = t == u
concerns i t (of_authentication j) = i == j
concerns i t (of_membership j u) = i == j && t == u
concerns i t (of_subject j u) = i == j && t == u

-- The versions of a stamp, added up.
abbrev pub total : SecurityStateStamp → ℕ
total s =
    s.runtime_generation + s.identity + s.tenant + s.membership + s.subject_authorization
    + s.tenant_authorization + s.global_authorization + s.governance + s.authentication

abbrev one_if : Bool → ℕ
one_if true = 1
one_if false = 0

pub bump-total :
    (b : Bump) (i t : ℕ) (s : StateStore)
    → total (stamp_for i t (bump b s).1) ≡ total (stamp_for i t s) + one_if (concerns i t b)
unfolding stamp_for bump_runtime_generation bump_identity bump_tenant bump_membership
    bump_subject_authorization bump_tenant_authorization bump_global_authorization bump_governance
    bump_authentication
bump-total of_runtime i t s = ground arith
bump-total of_global i t s = ground arith
bump-total (of_identity j) i t s = ground (arith, ==_iff i j)
bump-total (of_tenant j) i t s = ground (arith, ==_iff t j)
bump-total (of_tenant_authorization j) i t s = ground (arith, ==_iff t j)
bump-total (of_governance j) i t s = ground (arith, ==_iff t j)
bump-total (of_authentication j) i t s = ground (arith, ==_iff i j)
bump-total (of_membership j u) i t s = ground (arith, ==_iff i j, ==_iff t u)
bump-total (of_subject j u) i t s = ground (arith, ==_iff i j, ==_iff t u)

bump-same :
    (b : Bump) (i t : ℕ) (s : StateStore)
    → concerns i t b ≡ false
    → stamp_for i t (bump b s).1 ≡ stamp_for i t s
unfolding stamp_for bump_runtime_generation bump_identity bump_tenant bump_membership
    bump_subject_authorization bump_tenant_authorization bump_global_authorization bump_governance
    bump_authentication
bump-same of_runtime i t s h = absurd (cc h)
bump-same of_global i t s h = absurd (cc h)
bump-same (of_identity j) i t s h = ground arith
bump-same (of_tenant j) i t s h = ground arith
bump-same (of_tenant_authorization j) i t s h = ground arith
bump-same (of_governance j) i t s h = ground arith
bump-same (of_authentication j) i t s h = ground arith
bump-same (of_membership j u) i t s h = ground arith
bump-same (of_subject j u) i t s h = ground arith

pub stamp_beq_refl : (a : SecurityStateStamp) → stamp_beq a a ≡ true
unfolding stamp_beq
stamp_beq_refl a = ground arith

pub stamp_beq-eq : (a b : SecurityStateStamp) → stamp_beq a b ≡ true → a ≡ b
unfolding stamp_beq
stamp_beq-eq a b h = ground arith

-- The store after some bumps.
unfoldable pub after_bumps : List Bump → StateStore → StateStore
after_bumps [] s = s
after_bumps (b ∷ bs) s = after_bumps bs (bump b s).1

after_bumps-total :
    (bs : List Bump) (i t : ℕ) (s : StateStore)
    → total (stamp_for i t s) ≤ total (stamp_for i t (after_bumps bs s))
unfolding after_bumps
after_bumps-total [] i t s = omega arith
after_bumps-total (b ∷ bs) i t s =
    omega (arith, bump-total b i t s, after_bumps-total bs i t (bump b s).1)

concerned-total :
    (bs : List Bump) (i t : ℕ) (s : StateStore)
    → any (concerns i t) bs ≡ true
    → total (stamp_for i t s) < total (stamp_for i t (after_bumps bs s))
unfolding after_bumps
concerned-total [] i t s h = absurd (cc h)
concerned-total (b ∷ bs) i t s h =
    let step = bump-total b i t s in
    let rest = after_bumps-total bs i t (bump b s).1 in
    elim (Bool-cases (concerns i t b)) [
      | inl e ↦ let one : one_if (concerns i t b) ≡ 1 = rw e refl in omega arith
      | inr e ↦
          let more : any (concerns i t) bs ≡ true = ground arith in
          omega (arith, concerned-total bs i t (bump b s).1 more)
    ]

unconcerned-same :
    (bs : List Bump) (i t : ℕ) (s : StateStore)
    → any (concerns i t) bs ≡ false
    → stamp_for i t (after_bumps bs s) ≡ stamp_for i t s
unfolding after_bumps
unconcerned-same [] i t s h = refl
unconcerned-same (b ∷ bs) i t s h =
    unconcerned-same bs i t (bump b s).1 (ground arith) ∙ bump-same b i t s (ground arith)

-- A stamp taken now and one taken after any bumps are the same exactly if none of the bumps concerns
-- the identity or the tenant: no version goes back, and none comes again.
pub stamp_beq-after_bumps :
    (bs : List Bump) (i t : ℕ) (s : StateStore)
    → stamp_beq (stamp_for i t s) (stamp_for i t (after_bumps bs s)) ≡ not (any (concerns i t) bs)
stamp_beq-after_bumps bs i t s = elim (Bool-cases (any (concerns i t) bs)) [
  | inl e ↦ elim (Bool-cases (stamp_beq (stamp_for i t s) (stamp_for i t (after_bumps bs s)))) [
    | inl q ↦
        let same = stamp_beq-eq (stamp_for i t s) (stamp_for i t (after_bumps bs s)) q in
        let more = concerned-total bs i t s e in let equal = ap total same in absurd (omega arith)
    | inr q ↦ rw (q, e) refl
  ]
  | inr e ↦ rw (e, unconcerned-same bs i t s e) (stamp_beq_refl (stamp_for i t s))
]
