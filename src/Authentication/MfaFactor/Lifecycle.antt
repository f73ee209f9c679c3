-- ===== src/Authentication/MfaFactor/Lifecycle.antt =====
-- The life of an MfaFactor: a counter is accepted once, and what its calls keep.
use pyiamkit.Prelude.{
  ◌≡◌, refl, sym, subst, true, false, Option, none, some, List, [], ok, err, strip, strip_or_none,
  strip_idem, strip_or_none_idem, nonempty, ℤ, int_leb, int_leb_refl, int_leb_trans, int_leb-total,
  arith, Bool, Bool-cases, inl, inr,
}
use pyiamkit.Shared.{DateTime, is_utc, is_utc_or_none, up_to, run, run-keep}
use pyiamkit.Authentication.Values.{AuthenticationError, invalid_mfa_factor}
use pyiamkit.Authentication.Context.{up_to_or_none}
use pyiamkit.Authentication.MfaFactor.{
  MfaFactor, MfaFactorArgs, FactorResult, init, counter_ok, is_replay, activate,
  record_verification, revoke, accept_counter, rehydrate,
}

-- The three methods that change an MfaFactor.
pub data Call : Type 0 where
  activates verifies : ℤ → Call
  revokes : Call

abbrev pub call : Call → DateTime → MfaFactor → FactorResult
call (activates counter) = activate counter
call (verifies counter) = record_verification counter
call revokes = revoke

-- The counter that a call hands over.
abbrev pub counter_of : Call → Option ℤ
counter_of (activates counter) = some counter
counter_of (verifies counter) = some counter
counter_of revokes = none

-- The last accepted counter is `k` or a later one.
abbrev AtLeast : ℤ → Option ℤ → Type 0
AtLeast k none = ⊥
AtLeast k (some n) = int_leb k n ≡ true

replayed : (k n : ℤ) (o : Option ℤ) → AtLeast k o → int_leb n k ≡ true → is_replay n o ≡ true
replayed k n none h l = absurd h
replayed k n (some m) h l = int_leb_trans n k m l h

later : (k n : ℤ) (o : Option ℤ) → AtLeast k o → is_replay n o ≡ false → int_leb k n ≡ true
later k n none h l = absurd h
later k n (some m) h l = int_leb_trans k m n h (int_leb-total n m l)

-- A call that returns with a counter: the counter was new, and is now the last accepted one.
call-counter :
    (c : Call) (n : ℤ) (at : DateTime) (f : MfaFactor) {f' : MfaFactor}
    → counter_of c ≡ some n
    → call c at f ≡ ok f'
    → (is_replay n f.last_accepted_counter ≡ false) × (f'.last_accepted_counter ≡ some n)
unfolding activate record_verification
call-counter (activates m) n at f e h = ground arith
call-counter (verifies m) n at f e h = ground arith
call-counter revokes n at f e h = absurd (cc e)

call-AtLeast :
    (k : ℤ) (c : Call) (at : DateTime) (f : MfaFactor) {f' : MfaFactor}
    → AtLeast k f.last_accepted_counter
    → call c at f ≡ ok f'
    → AtLeast k f'.last_accepted_counter
unfolding revoke
call-AtLeast k (activates n) at f {f'} p h =
    let (new, same) = call-counter (activates n) n at f refl h in
    subst (AtLeast k) (sym same) (later k n f.last_accepted_counter p new)
call-AtLeast k (verifies n) at f {f'} p h =
    let (new, same) = call-counter (verifies n) n at f refl h in
    subst (AtLeast k) (sym same) (later k n f.last_accepted_counter p new)
call-AtLeast k revokes at f {f'} p h =
    let same : f.last_accepted_counter ≡ f'.last_accepted_counter = ground arith in
    subst (AtLeast k) same p

refused :
    (d : Call) (n : ℤ) (at : DateTime) (f : MfaFactor) (r : FactorResult)
    → counter_of d ≡ some n
    → is_replay n f.last_accepted_counter ≡ true
    → call d at f ≡ r
    → (e : AuthenticationError) × (r ≡ err e)
refused d n at f (ok f') e p h = let (new, same) = call-counter d n at f e h in absurd (cc)
refused d n at f (err x) e p h = (x, refl)

-- A one-time code is good once: when an MfaFactor has accepted a counter, whatever is called of it
-- afterwards, every call with that counter or an earlier one raises, at whatever moment.
pub accepted-refused :
    (c d : Call) (k n : ℤ) (at t : DateTime) (f : MfaFactor) {f' : MfaFactor}
    → counter_of c ≡ some k
    → call c at f ≡ ok f'
    → (cs : List (DateTime × Call)) → counter_of d ≡ some n
    → int_leb n k ≡ true
    → (e : AuthenticationError) × (call d t (run call cs f') ≡ err e)
accepted-refused c d k n at t f {f'} ck h cs dn l =
    let (new, same) = call-counter c k at f ck h in
    let kept =
      run-keep call (λ (x : MfaFactor). AtLeast k x.last_accepted_counter)
        (λ y u x z p e. call-AtLeast k y u x p e) cs f'
        (subst (AtLeast k) (sym same) (int_leb_refl k)) in
    let last = run call cs f' in
    refused d n t last (call d t last) dn (replayed k n last.last_accepted_counter kept l) refl

-- What `__init__` has checked of an MfaFactor, and what it has normalised.
pub record IsValid (f : MfaFactorArgs) : Type 0 where
  pub created_utc : is_utc f.created_at ≡ true
  pub updated_utc : is_utc f.updated_at ≡ true
  pub activated_utc : is_utc_or_none f.activated_at ≡ true
  pub revoked_utc : is_utc_or_none f.revoked_at ≡ true
  pub verified_utc : is_utc_or_none f.last_verified_at ≡ true
  pub stripped : strip f.secret_reference ≡ f.secret_reference
  pub referring : nonempty f.secret_reference ≡ true
  pub label_normal : strip_or_none f.label ≡ f.label
  pub counted : counter_ok f.last_accepted_counter ≡ true
  pub activated_later : up_to_or_none f.created_at f.activated_at ≡ true
  pub revoked_later : up_to_or_none f.created_at f.revoked_at ≡ true
  pub verified_later : up_to_or_none f.created_at f.last_verified_at ≡ true

pub init-IsValid : (a : MfaFactorArgs) {f : MfaFactor} → init a ≡ ok f → IsValid f.args
unfolding init
init-IsValid a h = ground (arith, strip_idem a.secret_reference, strip_or_none_idem a.label)

pub init_rehydrates :
    (f : MfaFactor) → IsValid f.args → init f.args ≡ ok (record f { pending_events = [] })
unfolding init
init_rehydrates f v = ground arith

-- A call at a moment that is not before the creation keeps the invariant.
pub call-IsValid :
    (c : Call) (at : DateTime) (f : MfaFactor) {f' : MfaFactor}
    → up_to f.created_at at ≡ true
    → IsValid f.args
    → call c at f ≡ ok f'
    → IsValid f'.args
unfolding activate record_verification revoke
call-IsValid (activates n) at f o v h = ground arith
call-IsValid (verifies n) at f o v h = ground arith
call-IsValid revokes at f o v h = ground arith

-- A call at an earlier moment leaves what the constructor refuses.
refused_early :
    (c : Call) (at : DateTime) (f : MfaFactor) {f' : MfaFactor}
    → IsValid f.args
    → call c at f ≡ ok f'
    → up_to f.created_at at ≡ false
    → init f'.args ≡ err invalid_mfa_factor
unfolding activate record_verification revoke accept_counter init
refused_early (activates n) at f v h o = ground arith
refused_early (verifies n) at f v h o = ground arith
refused_early revokes at f v h o = ground arith

abbrev stored_at : Bool → MfaFactor → FactorResult
stored_at true f = ok (record f { pending_events = [] })
stored_at false f = err invalid_mfa_factor

-- What a call of a valid MfaFactor leaves can be stored and loaded, and is then the same but for its
-- pending events, exactly if the moment of the call is not before the creation of the factor: an
-- earlier moment is accepted by the call, and `_rehydrate` refuses what it leaves.
pub call-rehydrate :
    (c : Call) (at : DateTime) (f : MfaFactor) {f' : MfaFactor}
    → IsValid f.args
    → call c at f ≡ ok f'
    → rehydrate f'.args ≡ stored_at (up_to f.created_at at) f'
unfolding rehydrate
call-rehydrate c at f {f'} v h = elim (Bool-cases (up_to f.created_at at)) [
  | inl o ↦ rw o (init_rehydrates f' (call-IsValid c at f o v h))
  | inr o ↦ rw o (refused_early c at f v h o)
]
