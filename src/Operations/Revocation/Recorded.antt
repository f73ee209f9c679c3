-- ===== src/Operations/Revocation/Recorded.antt =====
-- Where the markers of the registry come from (src/pyiamkit/operations/revocation.py).
use pyiamkit.Prelude.{
  ◌≡◌, refl, sym, ◌∙◌, subst, ◌⊎◌, inl, inr, Option, none, some, List, [], ◌∷◌, ◌++◌, Result, ok,
  ◌>>=◌, Text, strip, strip_idem, Bool-cases, >>=-eq-ok, In, In-append_left, In-append_right, arith,
}
use pyiamkit.Shared.{DateTime, run, run-keep_where}
use pyiamkit.Authorization.Values.{AuthorizationError}
use pyiamkit.Operations.Revocation.{
  RevocationTargetType, RevocationMarker, make_marker, is_older, marker_beq, Markers, key_beq,
  find_marker, store_marker, make_key, kept_marker, record_marker,
}
use pyiamkit.Operations.Revocation.Keys.{
  key_beq-eq, store_marker-same, store_marker-other, replaced,
}

-- `record` of a marker that is made then and there.
abbrev pub make_and_record :
    RevocationMarker → DateTime → Markers → Result AuthorizationError Markers
make_and_record m at ms = do m' ← make_marker m; record_marker m' ms

pub kept-cases :
    (i : RevocationTargetType × Text) (m : RevocationMarker) (ms : Markers)
    (found : Option RevocationMarker) {ms' : Markers}
    → kept_marker i m ms found ≡ ok ms'
    → (ms' ≡ ms) ⊎ (ms' ≡ store_marker i m ms)
kept-cases i m ms none h = ground arith
kept-cases i m ms (some x) {ms'} h = elim (Bool-cases (marker_beq x m)) [
  | inl e ↦ ground arith
  | inr e ↦ elim (Bool-cases (is_older m x)) [
    | inl p ↦ ground arith
    | inr p ↦ inr (sym (replaced i m x ms e p h))
  ]
]

pub made-key :
    (m : RevocationMarker) {m' : RevocationMarker}
    → make_marker m ≡ ok m'
    → (make_key m'.target_type m'.target_id ≡ ok (m.target_type, strip m.target_id))
      × (make_key m.target_type m.target_id ≡ ok (m.target_type, strip m.target_id))
      × (m'.source_version ≡ m.source_version)
unfolding make_marker make_key
made-key m h = ground (arith, strip_idem m.target_id)

-- The marker `x` is of the target `k`, and one of `all` that its constructor made.
pub record ComesFrom (all : List (DateTime × RevocationMarker)) (k : RevocationTargetType × Text)
    (x : RevocationMarker) : Type 0 where
  pub source : (p : DateTime × RevocationMarker) × In p all × (make_marker p.1 ≡ ok x)
  pub target : (x.target_type, x.target_id) ≡ k

made-target :
    (m : RevocationMarker) {m' : RevocationMarker} {i : RevocationTargetType × Text}
    → make_marker m ≡ ok m'
    → make_key m'.target_type m'.target_id ≡ ok i
    → (m'.target_type, m'.target_id) ≡ i
unfolding make_marker make_key
made-target m {m'} {i} h g = ground (arith, strip_idem m.target_id)

module _ (all : List (DateTime × RevocationMarker)) (k : RevocationTargetType × Text) where
  -- What the registry has under `k` is recorded.
  abbrev IsSourced : Markers → Type 0
  IsSourced ms = (x : RevocationMarker) → find_marker k ms ≡ some x → ComesFrom all k x

  stored-IsSourced :
      (i : RevocationTargetType × Text) (m : RevocationMarker) (ms : Markers)
      → (k ≡ i → ComesFrom all k m)
      → IsSourced ms
      → IsSourced (store_marker i m ms)
  stored-IsSourced i m ms own before x f = elim (Bool-cases (key_beq k i)) [
    | inl e ↦
        let q = key_beq-eq k i e in
        let found : find_marker k (store_marker i m ms) ≡ some m =
          subst (λ j. find_marker j (store_marker i m ms) ≡ some m) (sym q)
            (store_marker-same i m ms) in
        let same : m ≡ x = ground arith in subst (ComesFrom all k) same (own q)
    | inr e ↦ before x (sym (store_marker-other k i m ms e) ∙ f)
  ]

  make_and_record-IsSourced :
      (m : RevocationMarker) (at : DateTime) (ms ms' : Markers)
      → In (at, m) all
      → IsSourced ms
      → make_and_record m at ms ≡ ok ms'
      → IsSourced ms'
  unfolding record_marker
  make_and_record-IsSourced m at ms ms' i before h =
      let (m', e, h₁) = >>=-eq-ok (make_marker m) _ h in
      let (key, e₂, h₂) = >>=-eq-ok (make_key m'.target_type m'.target_id) _ h₁ in
      elim (kept-cases key m' ms (find_marker key ms) h₂) [
        | inl q ↦ subst IsSourced (sym q) before
        | inr q ↦ subst IsSourced (sym q) (
            stored-IsSourced key m' ms
              (λ r. record { source = ((at, m), i, e); target = made-target m e e₂ ∙ sym r })
              before)
      ]

pub run-ComesFrom :
    (k : RevocationTargetType × Text) (earlier later : List (DateTime × RevocationMarker))
    (m : RevocationMarker) (at : DateTime) {ms : Markers}
    → make_and_record m at (run make_and_record earlier []) ≡ ok ms
    → (x : RevocationMarker) → find_marker k (run make_and_record later ms) ≡ some x
    → ComesFrom (earlier ++ (at, m) ∷ later) k x
unfolding find_marker
run-ComesFrom k earlier later m at {ms} h =
    let all = earlier ++ (at, m) ∷ later in
    let step = make_and_record-IsSourced all k in
    let first =
      run-keep_where make_and_record (λ p. In p all) (IsSourced all k) step earlier []
        (λ p i. In-append_left p earlier ((at, m) ∷ later) i) (λ x f. absurd (ground arith)) in
    let own : In (at, m) all = In-append_right (at, m) earlier ((at, m) ∷ later) (inl refl) in
    let then = step m at (run make_and_record earlier []) ms own first h in
    run-keep_where make_and_record (λ p. In p all) (IsSourced all k) step later ms
      (λ p i. In-append_right p earlier ((at, m) ∷ later) (inr i)) then
