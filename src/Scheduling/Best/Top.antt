-- ===== src/Scheduling/Best/Top.antt =====
-- The pool holds the best candidates: what it leaves out scores no higher than anything in it.
use mathlib.Core.Bool.{true≢false}
use meow_cli.Common.{
  ℕ, ◌≤◌, ◌<◌, ◌≡◌, subst, ◌⊎◌, inl, inr, refl, true, false, some, List, [], ◌∷◌, arith, length,
  All, In, All-In, All-mono, Bool-cases, ltb, ltb→lt, sym, ap, ◌∙◌,
}
use meow_cli.Float.{Float, IsFloat}
use meow_cli.Scheduling.Best.{
  WeightedCandidate, settle, replace_last, insert_best_candidate, collect, candidate_for,
  is_eligible, pick_weighted_from_best,
}
use meow_cli.Scheduling.Best.Pool.{All-settle, length-settle, All-insert_best_candidate}
use meow_cli.Scheduling.Best.Pick.{pool_of, pick-pool}

module _ {W A : Type 0} ⦃f : Float W⦄ where
  -- The head of the pool scores no higher than what follows, all the way down.
  abbrev IsSorted : List (WeightedCandidate W A) → Type 0
  IsSorted [] = Unit
  IsSorted (p ∷ ps) = All (λ q. f.le p.score q.score ≡ true) ps × IsSorted ps

  abbrev IsNumber : WeightedCandidate W A → Type 0
  IsNumber c = f.le c.score c.score ≡ true

  -- The candidate is in the pool, or the pool is full of candidates that score no lower.
  abbrev pub IsCovered : ℕ → List (WeightedCandidate W A) → WeightedCandidate W A → Type 0
  IsCovered best pool c =
      In c pool ⊎ ((best ≤ length pool) × All (λ p. f.le c.score p.score ≡ true) pool)

  In-settle_self :
      (c : WeightedCandidate W A) (ps : List (WeightedCandidate W A)) → In c (settle c ps)
  unfolding settle
  In-settle_self c [] = inl refl
  In-settle_self c (p ∷ ps) = elim (Bool-cases (f.lt p.score c.score)) [
    | inl e ↦ rw e (inr (In-settle_self c ps))
    | inr e ↦ rw e (inl refl)
  ]

  In-settle :
      (c d : WeightedCandidate W A) (ps : List (WeightedCandidate W A))
      → In d ps
      → In d (settle c ps)
  unfolding settle
  In-settle c d [] m = absurd (m refl)
  In-settle c d (p ∷ ps) (inl q) = elim (Bool-cases (f.lt p.score c.score)) [
    | inl e ↦ rw e (inl q)
    | inr e ↦ rw e (inr (inl q))
  ]
  In-settle c d (p ∷ ps) (inr m) = elim (Bool-cases (f.lt p.score c.score)) [
    | inl e ↦ rw e (inr (In-settle c d ps m))
    | inr e ↦ rw e (inr (inr m))
  ]

  module _ (laws : IsFloat W) where
    le-All :
        (x y : W) (ps : List (WeightedCandidate W A))
        → f.le x y ≡ true
        → All (λ q. f.le y q.score ≡ true) ps
        → All (λ q. f.le x q.score ≡ true) ps
    le-All x y ps h = All-mono _ _ ps (λ q k. laws.le_trans x y q.score h k)

    settle-IsSorted :
        (c : WeightedCandidate W A) (ps : List (WeightedCandidate W A))
        → IsNumber c
        → All IsNumber ps
        → IsSorted ps
        → IsSorted (settle c ps)
    unfolding settle
    settle-IsSorted c [] n ns s = (tt, tt)
    settle-IsSorted c (p ∷ ps) n ns s = elim (Bool-cases (f.lt p.score c.score)) [
      | inl e ↦ rw e (All-settle _ c ps (laws.le_of_lt _ _ e) s.0, settle-IsSorted c ps n ns.1 s.1)
      | inr e ↦
          let low = laws.le_of_not_lt c.score p.score n ns.0 e in
          rw e ((low, le-All _ _ ps low s.0), s)
    ]

    insert-IsSorted :
        (pool : List (WeightedCandidate W A)) (best : ℕ) (c : WeightedCandidate W A)
        → IsNumber c
        → All IsNumber pool
        → IsSorted pool
        → IsSorted (insert_best_candidate pool best c)
    unfolding insert_best_candidate replace_last
    insert-IsSorted [] best c n ns s = ground (arith, settle-IsSorted c [] n ns s)
    insert-IsSorted (p ∷ ps) best c n ns s =
        ground (arith, settle-IsSorted c (p ∷ ps) n ns s, settle-IsSorted c ps n ns.1 s.1)

    settle_last-IsCovered :
        (best : ℕ) (p c d : WeightedCandidate W A) (ps : List (WeightedCandidate W A))
        → IsSorted (p ∷ ps)
        → best ≤ length (p ∷ ps)
        → f.lt p.score c.score ≡ true
        → IsCovered best (p ∷ ps) d
        → IsCovered best (settle c ps) d
    settle_last-IsCovered best p c d ps s full e (inl (inl q)) =
        let up = laws.le_of_lt _ _ e in
        let all = All-settle (λ r. f.le p.score r.score ≡ true) c ps up s.0 in
        inr (omega (arith, length-settle c ps), rw (← q) all)
    settle_last-IsCovered best p c d ps s full e (inl (inr m)) = inl (In-settle c d ps m)
    settle_last-IsCovered best p c d ps s full e (inr h) =
        let up = laws.le_trans _ _ _ h.1.0 (laws.le_of_lt _ _ e) in
        inr (omega (arith, length-settle c ps), All-settle _ c ps up h.1.1)

    settle-IsCovered :
        (pool : List (WeightedCandidate W A)) (best : ℕ) (c d : WeightedCandidate W A)
        → length pool < best
        → (d ≡ c) ⊎ IsCovered best pool d
        → IsCovered best (settle c pool) d
    settle-IsCovered pool best c d room (inl q) = rw q (inl (In-settle_self c pool))
    settle-IsCovered pool best c d room (inr (inl m)) = inl (In-settle c d pool m)
    settle-IsCovered pool best c d room (inr (inr h)) = absurd (omega arith)

    replace_last-IsCovered :
        (p : WeightedCandidate W A) (ps : List (WeightedCandidate W A)) (best : ℕ)
        (c d : WeightedCandidate W A)
        → best ≤ length (p ∷ ps)
        → IsNumber c
        → IsNumber p
        → IsSorted (p ∷ ps)
        → (d ≡ c) ⊎ IsCovered best (p ∷ ps) d
        → IsCovered best (replace_last c (p ∷ ps)) d
    unfolding replace_last
    replace_last-IsCovered p ps best c d full n np s h = elim (Bool-cases (f.le c.score p.score)) [
      | inl e ↦ rw e (elim h [
        | inl q ↦
            let Above : WeightedCandidate W A → Type 0 =
              λ z. All (λ r. f.le z.score r.score ≡ true) (p ∷ ps) in
            inr (full, subst Above (sym q) (e, le-All c.score p.score ps e s.0))
        | inr k ↦ k
      ])
      | inr e ↦
          let up = laws.lt_of_not_le p.score c.score np n e in
          rw e (elim h [
            | inl q ↦ rw q (inl (In-settle_self c ps))
            | inr k ↦ settle_last-IsCovered best p c d ps s full up k
          ])
    ]

    -- Inserting a candidate keeps every other one covered, and covers the new one.
    insert-IsCovered :
        (pool : List (WeightedCandidate W A)) (best : ℕ) (c d : WeightedCandidate W A)
        → 0 < best
        → IsNumber c
        → All IsNumber pool
        → IsSorted pool
        → (d ≡ c) ⊎ IsCovered best pool d
        → IsCovered best (insert_best_candidate pool best c) d
    unfolding insert_best_candidate
    insert-IsCovered [] best c d pos n ns s h = ground (arith, settle-IsCovered [] best c d pos h)
    insert-IsCovered (p ∷ ps) best c d pos n ns s h =
        elim (Bool-cases (ltb (length (p ∷ ps)) best)) [
          | inl e ↦ rw e (settle-IsCovered (p ∷ ps) best c d (ltb→lt _ _ e) h)
          | inr e ↦
              let full : best ≤ length (p ∷ ps) = ground arith in
              rw e (replace_last-IsCovered p ps best c d full n ns.0 s h)
        ]

    collect-IsCovered :
        (best : ℕ) (score : A → W) (items : List A) (pool : List (WeightedCandidate W A))
        (d : WeightedCandidate W A)
        → ((x : A) → f.le (score x) (score x) ≡ true)
        → 0 < best
        → All IsNumber pool
        → IsSorted pool
        → IsCovered best pool d
          ⊎ ((x : A) × In x items × (is_eligible score x ≡ true) × (d ≡ candidate_for score x))
        → IsCovered best (collect best score items pool) d
    unfolding collect
    collect-IsCovered best score [] pool d num pos ns s (inl h) = h
    collect-IsCovered best score [] pool d num pos ns s (inr (x, m, g, h)) = absurd (m refl)
    collect-IsCovered best score (x ∷ xs) pool d num pos ns s h =
        let c = candidate_for score x in
        elim (Bool-cases (is_eligible score x)) [
          | inl e ↦ rw e (
              collect-IsCovered best score xs (insert_best_candidate pool best c) d num pos
                (All-insert_best_candidate IsNumber pool best c (num x) ns)
                (insert-IsSorted pool best c (num x) ns s) (next_covered e h))
          | inr e ↦ rw e (collect-IsCovered best score xs pool d num pos ns s (skip e h))
        ]
      where
        Rest : List A → Type 0
        Rest ys = (y : A) × In y ys × (is_eligible score y ≡ true) × (d ≡ candidate_for score y)

        next_covered :
            is_eligible score x ≡ true
            → IsCovered best pool d ⊎ Rest (x ∷ xs)
            → IsCovered best (insert_best_candidate pool best (candidate_for score x)) d ⊎ Rest xs
        next_covered e (inl k) = inl (insert-IsCovered pool best _ d pos (num x) ns s (inr k))
        next_covered e (inr (y, inl q, g, r)) = inl (
            insert-IsCovered pool best _ d pos (num x) ns s
              (inl (r ∙ ap (candidate_for score) (sym q))))
        next_covered e (inr (y, inr m, g, r)) = inr (y, m, g, r)

        skip :
            is_eligible score x ≡ false
            → IsCovered best pool d ⊎ Rest (x ∷ xs)
            → IsCovered best pool d ⊎ Rest xs
        skip e (inl k) = inl k
        skip e (inr (y, inl q, g, r)) =
            absurd (true≢false (sym g ∙ ap (is_eligible score) (sym q) ∙ e))
        skip e (inr (y, inr m, g, r)) = inr (y, m, g, r)

    -- Under the laws of comparison, where the best count is positive and no score is NaN, and an
    -- item is picked, every eligible item is a candidate itself or scores no higher than the picked
    -- item, and in that case the pool is full.
    pub pick-top :
        (items : List A) (best : ℕ) (score : A → W) (random : W) (a x : A)
        → 0 < best
        → ((y : A) → f.le (score y) (score y) ≡ true)
        → pick_weighted_from_best items best score random ≡ some a
        → In x items
        → is_eligible score x ≡ true
        → let pool = pool_of items best score in
          In (candidate_for score x) pool
          ⊎ ((best ≤ length pool) × (f.le (score x) (score a) ≡ true))
    pick-top items best score random a x pos num e m g =
        let pool = pool_of items best score in
        let there = pick-pool items best score random e in
        elim (collect-IsCovered best score items [] (candidate_for score x) num pos tt tt
          (inr (x, m, g, refl))) [
            | inl k ↦ inl k
            | inr k ↦ inr (k.0, All-In (λ p. f.le (score x) p.score ≡ true) pool _ k.1 there)
          ]
