-- ===== src/Authentication/Credential/Lifecycle.antt =====
-- The life of a Credential: its invariant, and what sequences of its calls keep.
use pyiamkit.Prelude.{
  ◌≡◌, refl, true, false, List, [], ok, strip, strip_or_none, strip_idem, strip_or_none_idem,
  nonempty, arith,
}
use pyiamkit.Shared.{DateTime, is_utc, is_utc_or_none, before_end, up_to, run, run-keep}
use pyiamkit.Authentication.Credential.{
  Credential, CredentialArgs, CredentialResult, init, rehydrate, is_active_status, active_at,
  revoke, expire,
}

-- What `__init__` has checked of a Credential, and what it has normalised.
pub record IsValid (c : CredentialArgs) : Type 0 where
  pub created_utc : is_utc c.created_at ≡ true
  pub updated_utc : is_utc c.updated_at ≡ true
  pub from_utc : is_utc c.valid_from ≡ true
  pub until_utc : is_utc_or_none c.valid_until ≡ true
  pub revoked_utc : is_utc_or_none c.revoked_at ≡ true
  pub ordered : before_end c.valid_from c.valid_until ≡ true
  pub stripped : strip c.reference ≡ c.reference
  pub referring : nonempty c.reference ≡ true
  pub fingerprint_normal : strip_or_none c.fingerprint ≡ c.fingerprint
  pub label_normal : strip_or_none c.label ≡ c.label

-- The two methods that change a Credential.
pub data Call : Type 0 where
  revokes expires : Call

abbrev pub call : Call → DateTime → Credential → CredentialResult
call Call.revokes = revoke
call Call.expires = expire

pub init-IsValid : (a : CredentialArgs) {c : Credential} → init a ≡ ok c → IsValid c.args
unfolding init
init-IsValid a h =
    ground
      (arith, strip_idem a.reference, strip_or_none_idem a.fingerprint, strip_or_none_idem a.label)

pub init_rehydrates :
    (c : Credential) → IsValid c.args → init c.args ≡ ok (record c { pending_events = [] })
unfolding init
init_rehydrates c v = ground arith

pub call-IsValid :
    (k : Call) (at : DateTime) (c : Credential) {c' : Credential}
    → IsValid c.args
    → call k at c ≡ ok c'
    → IsValid c'.args
unfolding revoke expire
call-IsValid Call.revokes at c v h = ground arith
call-IsValid Call.expires at c v h = ground arith

-- What a Credential of the arguments `a` keeps: its owner, its reference and its period, and, once
-- it is closed, that it is.
abbrev Keeps : CredentialArgs → Credential → Type 0
Keeps a c =
    IsValid c.args
    × (c.identity_id ≡ a.identity_id)
    × (c.reference ≡ a.reference)
    × (c.valid_from ≡ a.valid_from)
    × (c.valid_until ≡ a.valid_until)
    × (is_active_status a.status ≡ false → is_active_status c.status ≡ false)

call-Keeps :
    (a : CredentialArgs) (k : Call) (at : DateTime) (c : Credential) {c' : Credential}
    → Keeps a c
    → call k at c ≡ ok c'
    → Keeps a c'
unfolding revoke expire
call-Keeps a Call.revokes at c (v, i, r, from, until, closed) h =
    let v' = call-IsValid Call.revokes at c v h in
    (v', ground arith, ground arith, ground arith, ground arith, ground arith)
call-Keeps a Call.expires at c (v, i, r, from, until, closed) h =
    let v' = call-IsValid Call.expires at c v h in
    (v', ground arith, ground arith, ground arith, ground arith, ground arith)

-- A Credential that its constructor made, after any calls at any moments: `_rehydrate` accepts the
-- arguments that they leave and gives the same Credential again, without its pending events; it
-- has the owner and the reference that it had; and at a moment outside of its first period, or if
-- it was revoked or expired before the calls, it is not active.
pub credential-rehydrates :
    (a : CredentialArgs) {c : Credential}
    → init a ≡ ok c
    → (ks : List (DateTime × Call)) (t : DateTime)
    → (rehydrate (run call ks c).args ≡ ok (record (run call ks c) { pending_events = [] }))
      × ((run call ks c).identity_id ≡ c.identity_id)
      × ((run call ks c).reference ≡ c.reference)
      × (active_at t (run call ks c).args ≡ true
          → (is_active_status c.status ≡ true)
            × (up_to c.valid_from t ≡ true)
            × (before_end t c.valid_until ≡ true))
unfolding rehydrate
credential-rehydrates a {c} h ks t =
    let (v, i, r, from, until, closed) =
      run-keep call (Keeps c.args) (λ k at x y p e. call-Keeps c.args k at x p e) ks c
        (init-IsValid a h, refl, refl, refl, refl, λ o. o) in
    (init_rehydrates (run call ks c) v, i, r, λ act. ground arith)
