-- ===== src/Scheduling/Best/Pick.antt =====
-- PickWeightedFromBest picks an eligible item among the best ones, and picks one whenever there is one.
use mathlib.Core.List.{reverse}
use mathlib.Core.Option.{some-injective}
use meow_cli.Common.{
  ℕ, ◌≡◌, ◌∙◌, inl, inr, refl, ap, true, false, some, is_some, List, [], ◌∷◌, arith, length, All,
  In, All-In, In-reverse, length-reverse, count_of-any, Bool-cases, any, ◌&&◌, ltb, ◌==◌,
}
use meow_cli.Float.{Float, nought}
use meow_cli.Scheduling.Best.{
  WeightedCandidate, collect, candidate_for, is_eligible, draw, draw_from, total_weight,
  pick_weighted_from_best,
}
use meow_cli.Scheduling.Best.Pool.{length-collect, All-collect}

module _ {W A : Type 0} ⦃f : Float W⦄ where
  draw-In :
      (pick : W) (c : WeightedCandidate W A) (cs : List (WeightedCandidate W A))
      → (d : WeightedCandidate W A) × In d (c ∷ cs) × (d.item ≡ draw pick c cs)
  unfolding draw
  draw-In pick c [] = (c, inl refl, refl)
  draw-In pick c (d ∷ ds) = elim (Bool-cases (f.le (f.sub pick c.weight) nought)) [
    | inl e ↦ (c, inl refl, rw e)
    | inr e ↦ let (x, m, q) = draw-In (f.sub pick c.weight) d ds in (x, inr m, rw e q)
  ]

  draw_from-In :
      (random : W) (cs : List (WeightedCandidate W A)) {a : A}
      → draw_from random cs ≡ some a
      → (d : WeightedCandidate W A) × In d cs × (d.item ≡ a)
  unfolding draw_from
  draw_from-In random [] e = cc
  draw_from-In random (c ∷ cs) e =
      let (x, m, q) = draw-In (f.mul random (total_weight (c ∷ cs) nought)) c cs in
      (x, m, q ∙ some-injective _ _ e)

  -- The pool that PickWeightedFromBest draws from.
  abbrev pub pool_of : List A → ℕ → (A → W) → List (WeightedCandidate W A)
  pool_of items best score = collect best score items []

  abbrev pub StandsFor : (A → W) → List A → WeightedCandidate W A → Type 0
  StandsFor score items c =
      (c ≡ candidate_for score c.item) × In c.item items × (is_eligible score c.item ≡ true)

  pool_of-StandsFor :
      (items : List A) (best : ℕ) (score : A → W)
      → All (StandsFor score items) (pool_of items best score)
  pool_of-StandsFor items best score =
      All-collect (StandsFor score items) best score items [] (λ x m e. (refl, m, e)) tt

  -- A pick is drawn from the pool.
  pub pick-pool :
      (items : List A) (best : ℕ) (score : A → W) (random : W) {a : A}
      → pick_weighted_from_best items best score random ≡ some a
      → In (candidate_for score a) (pool_of items best score)
  unfolding pick_weighted_from_best
  pick-pool items best score random {a} e = elim (Bool-cases (best == 0)) [
    | inl z ↦ absurd (ground arith)
    | inr z ↦
        let (d, m, q) = draw_from-In random (reverse (pool_of items best score)) (rw z at e) in
        let here = In-reverse d (pool_of items best score) m in
        let s = All-In _ _ d (pool_of-StandsFor items best score) here in
        let same : d ≡ candidate_for score a = s.0 ∙ ap (candidate_for score) q in rw (← same) here
  ]

  -- A picked item is one of the items, and its score is not ≤ 0.
  pub pick-eligible :
      (items : List A) (best : ℕ) (score : A → W) (random : W) {a : A}
      → pick_weighted_from_best items best score random ≡ some a
      → In a items × (f.le (score a) nought ≡ false)
  pick-eligible items best score random e =
      let s =
        All-In _ _ _ (pool_of-StandsFor items best score) (pick-pool items best score random e) in
      (s.1, ground arith)

  is_some-draw_from :
      (random : W) (cs : List (WeightedCandidate W A))
      → is_some (draw_from random cs) ≡ ltb 0 (length cs)
  unfolding draw_from
  is_some-draw_from random [] = refl
  is_some-draw_from random (c ∷ cs) = ground arith

  -- An item is picked exactly when the best count is positive and some item's score is not ≤ 0.
  pub pick-is_some :
      (items : List A) (best : ℕ) (score : A → W) (random : W)
      → is_some (pick_weighted_from_best items best score random)
        ≡ (ltb 0 best && any (is_eligible score) items)
  unfolding pick_weighted_from_best
  pick-is_some items best score random = elim (Bool-cases (best == 0)) [
    | inl z ↦ ground arith
    | inr z ↦
        let pool = pool_of items best score in
        rw z (
          ground (
            arith,
            is_some-draw_from random (reverse pool),
            length-reverse pool,
            length-collect best score items [],
            count_of-any (is_eligible score) items,
          ))
  ]
