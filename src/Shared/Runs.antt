-- ===== src/Shared/Runs.antt =====
-- A caller that calls methods of an aggregate one after the other, at the moments that it is given,
-- and goes on with the aggregate that it had where one raises.
use pyiamkit.Prelude.{◌≡◌, refl, List, [], ◌∷◌, Result, ok, err, In, inl, inr}
use pyiamkit.Shared.Time.{DateTime}

abbrev pub after : {E A : Type 0} → A → Result E A → A
after a (ok a') = a'
after a (err _) = a

module _ {E C A : Type 0} (call : C → DateTime → A → Result E A) where
  unfoldable pub run : List (DateTime × C) → A → A
  run [] a = a
  run ((at, c) ∷ cs) a = run cs (after a (call c at a))

  after-keep {ℓ} :
      (P : A → Type ℓ) (a : A) (r : Result E A)
      → P a
      → ((a' : A) → r ≡ ok a' → P a')
      → P (after a r)
  after-keep P a (ok a') p h = h a' refl
  after-keep P a (err e) p h = p

  module _ {ℓ} (P : A → Type ℓ)
      (keep : (c : C) (at : DateTime) (a a' : A) → P a → call c at a ≡ ok a' → P a') where
    -- What every call that returns keeps, a run keeps.
    pub run-keep : (cs : List (DateTime × C)) (a : A) → P a → P (run cs a)
    unfolding run
    run-keep [] a p = p
    run-keep ((at, c) ∷ cs) a p =
        run-keep cs (after a (call c at a))
          (after-keep P a (call c at a) p (λ a' e. keep c at a a' p e))

  -- The same for what the calls of the run keep.
  module _ {ℓ κ} (Q : DateTime × C → Type κ) (P : A → Type ℓ)
      (keep : (c : C) (at : DateTime) (a a' : A)
        → Q (at, c)
        → P a
        → call c at a ≡ ok a'
        → P a') where
    pub run-keep_where :
        (cs : List (DateTime × C)) (a : A)
        → ((p : DateTime × C) → In p cs → Q p)
        → P a
        → P (run cs a)
    unfolding run
    run-keep_where [] a q p = p
    run-keep_where ((at, c) ∷ cs) a q p =
        run-keep_where cs (after a (call c at a)) (λ x i. q x (inr i))
          (after-keep P a (call c at a) p (λ a' e. keep c at a a' (q (at, c) (inl refl)) p e))

  -- What no call changes, a run does not change.
  pub run_fixed :
      (a : A)
      → ((c : C) (at : DateTime) → after a (call c at a) ≡ a)
      → (cs : List (DateTime × C)) → run cs a ≡ a
  unfolding run
  run_fixed a h [] = refl
  run_fixed a h ((at, c) ∷ cs) = rw (h c at) (run_fixed a h cs)
