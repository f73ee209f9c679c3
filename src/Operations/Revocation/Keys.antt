-- ===== src/Operations/Revocation/Keys.antt =====
-- src/pyiamkit/operations/revocation.py and adapters/memory.py: lemmas on the keys and the versions of
-- revocation markers.
use pyiamkit.Prelude.{
  ℕ, ◌≡◌, ◌≤◌, refl, subst, inl, inr, true, false, some, [], ◌∷◌, ok, Text, text_beq_iff,
  Bool-cases, arith,
}
use pyiamkit.Operations.Revocation.{
  RevocationTargetType, type_beq, RevocationMarker, is_older, same_revision, marker_beq, Markers,
  key_beq, find_marker, store_marker, kept_marker,
}

pub type_beq-eq : (a b : RevocationTargetType) → type_beq a b ≡ true → a ≡ b
type_beq-eq a b h = ground arith

pub key_beq-eq : (k j : RevocationTargetType × Text) → key_beq k j ≡ true → k ≡ j
key_beq-eq (t, n) (u, m) h = ground (arith, type_beq-eq t u, text_beq_iff n m)

pub key_beq_refl : (k : RevocationTargetType × Text) → key_beq k k ≡ true
key_beq_refl (t, n) = ground (arith, text_beq_iff n n)

pub store_marker-same :
    (k : RevocationTargetType × Text) (m : RevocationMarker) (ms : Markers)
    → find_marker k (store_marker k m ms) ≡ some m
unfolding find_marker store_marker
store_marker-same k m [] = rw (key_beq_refl k) refl
store_marker-same k m ((j, n) ∷ ms) = ground (arith, key_beq_refl k, store_marker-same k m ms)

pub store_marker-other :
    (k i : RevocationTargetType × Text) (m : RevocationMarker) (ms : Markers)
    → key_beq k i ≡ false
    → find_marker k (store_marker i m ms) ≡ find_marker k ms
unfolding find_marker store_marker
store_marker-other k i m [] h = rw h refl
store_marker-other k i m ((j, n) ∷ ms) h = elim (Bool-cases (key_beq i j)) [
  | inl e ↦
      let same = key_beq-eq i j e in
      let other : key_beq k j ≡ false = subst (λ x. key_beq k x ≡ false) same h in
      rw (e, h, other) refl
  | inr e ↦ ground (arith, store_marker-other k i m ms h)
]

-- The marker of `k` has the version `v` or a later one.
abbrev pub Holds : RevocationTargetType × Text → ℕ → Markers → Type 0
Holds k v ms =
    (x : RevocationMarker) × (find_marker k ms ≡ some x)
    × (w : ℕ) × (x.source_version ≡ some w)
    × (v ≤ w)

pub marker_beq-version :
    (x m : RevocationMarker) {u w : ℕ}
    → m.source_version ≡ some u
    → x.source_version ≡ some w
    → marker_beq x m ≡ true
    → w ≡ u
unfolding marker_beq
marker_beq-version x m mu xw h = ground arith

pub is_older-version :
    (m x : RevocationMarker) {u w : ℕ}
    → m.source_version ≡ some u
    → x.source_version ≡ some w
    → is_older m x ≡ false
    → w ≤ u
unfolding is_older
is_older-version m x mu xw h = ground arith

pub older-version :
    (m x : RevocationMarker) {u w : ℕ}
    → m.source_version ≡ some u
    → x.source_version ≡ some w
    → is_older m x ≡ true
    → u ≤ w
unfolding is_older
older-version m x mu xw h = ground arith

pub replaced :
    (k : RevocationTargetType × Text) (m x : RevocationMarker) (ms : Markers) {ms' : Markers}
    → marker_beq x m ≡ false
    → is_older m x ≡ false
    → kept_marker k m ms (some x) ≡ ok ms'
    → store_marker k m ms ≡ ms'
replaced k m x ms e o h = elim (Bool-cases (same_revision m x)) [
  | inl r ↦ absurd (ground arith)
  | inr r ↦ ground arith
]

-- What is left after a marker of the version `u` meets one of the version `w`.
pub newer :
    (k : RevocationTargetType × Text) (m x : RevocationMarker) (u v w : ℕ) (ms : Markers)
    {ms' : Markers}
    → m.source_version ≡ some u
    → x.source_version ≡ some w
    → v ≤ w
    → find_marker k ms ≡ some x
    → kept_marker k m ms (some x) ≡ ok ms'
    → Holds k v ms'
newer k m x u v w ms {ms'} mu xw l f h = elim (Bool-cases (marker_beq x m)) [
  | inl e ↦
      let stored : store_marker k m ms ≡ ms' = ground arith in
      new stored (omega (arith, marker_beq-version x m mu xw e))
  | inr e ↦ elim (Bool-cases (is_older m x)) [
    | inl o ↦
        let stored : ms ≡ ms' = ground arith in
        (x, subst (λ y. find_marker k y ≡ some x) stored f, w, xw, l)
    | inr o ↦ new (replaced k m x ms e o h) (omega (arith, is_older-version m x mu xw o))
  ]
]
  where
    new : store_marker k m ms ≡ ms' → v ≤ u → Holds k v ms'
    new stored le =
        (m, subst (λ y. find_marker k y ≡ some m) stored (store_marker-same k m ms), u, mu, le)

-- A marker that its constructor made, for a target that can become active again.
