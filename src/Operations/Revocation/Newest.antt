-- ===== src/Operations/Revocation/Newest.antt =====
-- The registry of revocation markers keeps the newest.
use pyiamkit.Prelude.{
  ℕ, ◌≡◌, ◌≤◌, refl, sym, ap, ◌∙◌, subst, ◌⊎◌, inl, inr, true, false, none, some, List, [], ◌∷◌,
  ◌++◌, ok, Text, strip, Bool-cases, Option-cases, >>=-eq-ok, arith,
}
use pyiamkit.Shared.{DateTime, run, run-keep}
use pyiamkit.Operations.Revocation.{
  RevocationTargetType, is_reactivable, RevocationMarker, make_marker, applies_to, is_older,
  marker_beq, Markers, key_beq, find_marker, store_marker, make_key, kept_marker, record_marker,
  get,
}
use pyiamkit.Operations.Revocation.Recorded.{
  make_and_record, kept-cases, made-key, ComesFrom, run-ComesFrom,
}
use pyiamkit.Operations.Revocation.Keys.{
  key_beq-eq, store_marker-same, store_marker-other, Holds, older-version, replaced, newer,
}

abbrev pub Versioned : RevocationMarker → Type 0
Versioned m = (u : ℕ) × (m.source_version ≡ some u)

pub make_marker-Versioned :
    (m : RevocationMarker) {m' : RevocationMarker}
    → make_marker m ≡ ok m'
    → is_reactivable m'.target_type ≡ true
    → Versioned m'
unfolding make_marker
make_marker-Versioned m {m'} h r = elim (Option-cases m'.source_version) [
  | inl e ↦ absurd (ground arith)
  | inr v ↦ v
]

pub Holds-other :
    (k i : RevocationTargetType × Text) (v : ℕ) (m : RevocationMarker) (ms : Markers)
    {ms' : Markers}
    → key_beq k i ≡ false
    → (ms' ≡ ms) ⊎ (ms' ≡ store_marker i m ms)
    → Holds k v ms
    → Holds k v ms'
Holds-other k i v m ms o (inl e) (x, f, w, xw, l) =
    (x, subst (λ y. find_marker k y ≡ some x) (sym e) f, w, xw, l)
Holds-other k i v m ms o (inr e) (x, f, w, xw, l) =
    (x, subst (λ y. find_marker k y ≡ some x) (sym e) (store_marker-other k i m ms o ∙ f), w, xw, l)

pub make_key-type :
    (t : RevocationTargetType) (n : Text) {k : RevocationTargetType × Text}
    → make_key t n ≡ ok k
    → k.0 ≡ t
unfolding make_key
make_key-type t n h = ground arith

pub make_and_record-Holds :
    (k : RevocationTargetType × Text) (v : ℕ) (m : RevocationMarker) (at : DateTime) (ms : Markers)
    {ms' : Markers}
    → is_reactivable k.0 ≡ true
    → Holds k v ms
    → make_and_record m at ms ≡ ok ms'
    → Holds k v ms'
unfolding record_marker
make_and_record-Holds k v m at ms {ms'} r (x, f, w, xw, l) h =
    let (m', e, h₁) = >>=-eq-ok (make_marker m) _ h in
    let (i, e₂, h₂) = >>=-eq-ok (make_key m'.target_type m'.target_id) _ h₁ in
    elim (Bool-cases (key_beq k i)) [
      | inl same ↦
          let q = key_beq-eq k i same in
          let type = ap (λ (y : RevocationTargetType × Text). y.0) q ∙ make_key-type _ _ e₂ in
          let (u, mu) = make_marker-Versioned m e (subst (λ t. is_reactivable t ≡ true) type r) in
          let found : find_marker i ms ≡ some x = subst (λ y. find_marker y ms ≡ some x) q f in
          subst (λ y. Holds y v ms') (sym q)
            (newer i m' x u v w ms mu xw l found
              (subst (λ y. kept_marker i m' ms y ≡ ok ms') found h₂))
      | inr other ↦
          Holds-other k i v m' ms other (kept-cases i m' ms (find_marker i ms) h₂) (x, f, w, xw, l)
    ]

-- Of a target that can become active again, nothing is stored, or a marker with a version.
abbrev pub IsClean : RevocationTargetType × Text → Markers → Type 0
IsClean k ms = (find_marker k ms ≡ none) ⊎ Holds k 0 ms

-- The state after a marker `m` of the version `u` has been recorded.
pub recorded-Holds :
    (k : RevocationTargetType × Text) (m : RevocationMarker) (u : ℕ) (ms : Markers) {ms' : Markers}
    → m.source_version ≡ some u
    → IsClean k ms
    → kept_marker k m ms (find_marker k ms) ≡ ok ms'
    → Holds k u ms'
recorded-Holds k m u ms {ms'} mu (inl f) h =
    let kept = subst (λ y. kept_marker k m ms y ≡ ok ms') f h in
    let stored : store_marker k m ms ≡ ms' = ground arith in
    (m, subst (λ y. find_marker k y ≡ some m) stored (store_marker-same k m ms), u, mu, omega arith)
recorded-Holds k m u ms {ms'} mu (inr (x, f, w, xw, l)) h =
    let kept = subst (λ y. kept_marker k m ms y ≡ ok ms') f h in
    elim (Bool-cases (is_older m x)) [
      | inl o ↦ newer k m x u u w ms mu xw (older-version m x mu xw o) f kept
      | inr o ↦ elim (Bool-cases (marker_beq x m)) [
        | inl e ↦ let stored : store_marker k m ms ≡ ms' = ground arith in new stored
        | inr e ↦ new (replaced k m x ms e o kept)
      ]
    ]
  where
    new : store_marker k m ms ≡ ms' → Holds k u ms'
    new stored = (
      m,
      subst (λ y. find_marker k y ≡ some m) stored (store_marker-same k m ms),
      u,
      mu,
      omega arith,
    )

pub make_and_record-IsClean :
    (k : RevocationTargetType × Text) (m : RevocationMarker) (at : DateTime) (ms : Markers)
    {ms' : Markers}
    → is_reactivable k.0 ≡ true
    → IsClean k ms
    → make_and_record m at ms ≡ ok ms'
    → IsClean k ms'
unfolding record_marker
make_and_record-IsClean k m at ms r (inr holds) h =
    inr (make_and_record-Holds k 0 m at ms r holds h)
make_and_record-IsClean k m at ms {ms'} r (inl f) h =
    let (m', e, h₁) = >>=-eq-ok (make_marker m) _ h in
    let (i, e₂, h₂) = >>=-eq-ok (make_key m'.target_type m'.target_id) _ h₁ in
    elim (Bool-cases (key_beq k i)) [
      | inl same ↦
          let q = key_beq-eq k i same in
          let type = ap (λ (y : RevocationTargetType × Text). y.0) q ∙ make_key-type _ _ e₂ in
          let (u, mu) = make_marker-Versioned m e (subst (λ t. is_reactivable t ≡ true) type r) in
          let clean : IsClean i ms = subst (λ y. IsClean y ms) q (inl f) in
          let (x, g, w, xw, l) = recorded-Holds i m' u ms mu clean h₂ in
          inr (subst (λ y. Holds y 0 ms') (sym q) (x, g, w, xw, omega arith))
      | inr other ↦ elim (kept-cases i m' ms (find_marker i ms) h₂) [
        | inl q ↦ inl (subst (λ y. find_marker k y ≡ none) (sym q) f)
        | inr q ↦
            inl
              (subst (λ y. find_marker k y ≡ none) (sym q) (store_marker-other k i m' ms other ∙ f))
      ]
    ]

-- When a marker of the version `v` has been recorded, for a target that can become active again, then
-- whatever markers were recorded before it, and whatever are recorded after it, in any order and of
-- any versions, the registry answers for the target with a marker that is one of those recorded, as
-- its constructor made it, of this target and of a version of at least `v`; so it applies to every
-- current version up to `v`. From when and until when it is active is by its own moments.
pub recorded-applies_to :
    (earlier later : List (DateTime × RevocationMarker)) (m : RevocationMarker) (at : DateTime)
    (v : ℕ) {ms : Markers}
    → is_reactivable m.target_type ≡ true
    → m.source_version ≡ some v
    → make_and_record m at (run make_and_record earlier []) ≡ ok ms
    → (x : RevocationMarker) × (get m.target_type m.target_id (run make_and_record later ms)
        ≡ ok (some x))
      × ((current : ℕ) → current ≤ v → applies_to current x ≡ true)
      × ComesFrom (earlier ++ (at, m) ∷ later) (m.target_type, strip m.target_id) x
      × ((w : ℕ) × (x.source_version ≡ some w) × (v ≤ w))
unfolding record_marker get applies_to
recorded-applies_to earlier later m at v {ms} r mv h =
    let k : RevocationTargetType × Text = (m.target_type, strip m.target_id) in
    let clean =
      run-keep make_and_record (IsClean k) (λ n t x y p e. make_and_record-IsClean k n t x r p e)
        earlier [] (inl refl) in
    let ms₀ = run make_and_record earlier [] in
    let (m', e, h₁) = >>=-eq-ok (make_marker m) _ h in
    let (key, given, same) = made-key m e in
    let (i, e₂, h₂) = >>=-eq-ok (make_key m'.target_type m'.target_id) _ h₁ in
    let q : i ≡ k = ground arith in
    let kept = subst (λ y. kept_marker y m' ms₀ (find_marker y ms₀) ≡ ok ms) q h₂ in
    let held = recorded-Holds k m' v ms₀ (same ∙ mv) clean kept in
    let (x, f, w, xw, l) =
      run-keep make_and_record (Holds k v) (λ n t x y p e. make_and_record-Holds k v n t x r p e)
        later ms held in
    let from = run-ComesFrom k earlier later m at h in
    (x, rw (given, f) refl, λ current le. ground arith, from x f, (w, xw, l))
