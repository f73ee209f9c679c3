-- ===== src/Operations/State.antt =====
-- src/pyiamkit/operations/state.py, and InMemorySecurityStateStore of operations/adapters/memory.py. A
-- version is a number; a version that a dictionary does not hold is 0.
pub mod Freshness
use pyiamkit.Prelude.{ℕ, suc, ◌+◌, Bool, true, false, ◌&&◌, List, [], ◌∷◌, ◌==◌, if◌then◌else◌}

pub record SecurityStateStamp : Type 0 where
  pub runtime_generation : ℕ
  pub identity : ℕ
  pub tenant : ℕ
  pub membership : ℕ
  pub subject_authorization : ℕ
  pub tenant_authorization : ℕ
  pub global_authorization : ℕ
  pub governance : ℕ
  pub authentication : ℕ

-- `==` of two stamps.
unfoldable pub stamp_beq : SecurityStateStamp → SecurityStateStamp → Bool
stamp_beq a b =
    a.runtime_generation == b.runtime_generation
    && a.identity == b.identity
    && a.tenant == b.tenant
    && a.membership == b.membership
    && a.subject_authorization == b.subject_authorization
    && a.tenant_authorization == b.tenant_authorization
    && a.global_authorization == b.global_authorization
    && a.governance == b.governance
    && a.authentication == b.authentication

-- The dictionaries, as functions.
pub record StateStore : Type 0 where
  pub runtime_generation : ℕ
  pub identity : ℕ → ℕ
  pub tenant : ℕ → ℕ
  pub membership : ℕ → ℕ → ℕ
  pub subject_authorization : ℕ → ℕ → ℕ
  pub tenant_authorization : ℕ → ℕ
  pub global_authorization : ℕ
  pub governance : ℕ → ℕ
  pub authentication : ℕ → ℕ

-- `__init__`.
unfoldable pub new_store : StateStore
new_store = record {
  runtime_generation = 0;
  identity = λ _. 0;
  tenant = λ _. 0;
  membership = λ _ _. 0;
  subject_authorization = λ _ _. 0;
  tenant_authorization = λ _. 0;
  global_authorization = 0;
  governance = λ _. 0;
  authentication = λ _. 0;
}

unfoldable pub stamp_for : ℕ → ℕ → StateStore → SecurityStateStamp
stamp_for i t s = record {
  runtime_generation = s.runtime_generation;
  identity = s.identity i;
  tenant = s.tenant t;
  membership = s.membership i t;
  subject_authorization = s.subject_authorization i t;
  tenant_authorization = s.tenant_authorization t;
  global_authorization = s.global_authorization;
  governance = s.governance t;
  authentication = s.authentication i;
}

-- `d[k] = v`, and the same where the key is a pair.
abbrev pub write : ℕ → ℕ → (ℕ → ℕ) → ℕ → ℕ
write k v d j = if j == k then v else d j

abbrev pub write_pair : ℕ → ℕ → ℕ → (ℕ → ℕ → ℕ) → ℕ → ℕ → ℕ
write_pair i t v d j u = if j == i && u == t then v else d j u

-- A method returns the new version and the store.
unfoldable pub bump_runtime_generation : StateStore → ℕ × StateStore
bump_runtime_generation s =
    let v = suc s.runtime_generation in (v, record s { runtime_generation = v })

unfoldable pub bump_identity : ℕ → StateStore → ℕ × StateStore
bump_identity i s = let v = suc (s.identity i) in (v, record s { identity = write i v s.identity })

unfoldable pub bump_tenant : ℕ → StateStore → ℕ × StateStore
bump_tenant t s = let v = suc (s.tenant t) in (v, record s { tenant = write t v s.tenant })

unfoldable pub bump_membership : ℕ → ℕ → StateStore → ℕ × StateStore
bump_membership i t s =
    let v = suc (s.membership i t) in (v, record s { membership = write_pair i t v s.membership })

unfoldable pub bump_subject_authorization : ℕ → ℕ → StateStore → ℕ × StateStore
bump_subject_authorization i t s =
    let v = suc (s.subject_authorization i t) in
    (v, record s { subject_authorization = write_pair i t v s.subject_authorization })

unfoldable pub bump_tenant_authorization : ℕ → StateStore → ℕ × StateStore
bump_tenant_authorization t s =
    let v = suc (s.tenant_authorization t) in
    (v, record s { tenant_authorization = write t v s.tenant_authorization })

unfoldable pub bump_global_authorization : StateStore → ℕ × StateStore
bump_global_authorization s =
    let v = suc s.global_authorization in (v, record s { global_authorization = v })

unfoldable pub bump_governance : ℕ → StateStore → ℕ × StateStore
bump_governance t s =
    let v = suc (s.governance t) in (v, record s { governance = write t v s.governance })

unfoldable pub bump_authentication : ℕ → StateStore → ℕ × StateStore
bump_authentication i s =
    let v = suc (s.authentication i) in
    (v, record s { authentication = write i v s.authentication })
