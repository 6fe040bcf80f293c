-- ===== src/Scheduling/Best/Pool.antt =====
-- The candidate pool: its size, and what all of its members satisfy.
use meow_cli.Common.{
  ℕ, suc, ◌+◌, ◌≤◌, ◌<◌, ◌≡◌, inl, inr, refl, true, List, [], ◌∷◌, arith, length, All, In,
  Bool-cases, count_of,
}
use Prim.Native.Nat.{min}
use meow_cli.Float.{Float}
use meow_cli.Scheduling.Best.{
  WeightedCandidate, settle, replace_last, insert_best_candidate, collect, candidate_for,
  is_eligible,
}

module _ {W A : Type 0} ⦃f : Float W⦄ where
  pub length-settle :
      (c : WeightedCandidate W A) (ps : List (WeightedCandidate W A))
      → length (settle c ps) ≡ suc (length ps)
  unfolding settle
  length-settle c [] = refl
  length-settle c (p ∷ ps) = ground (arith, length-settle c ps)

  pub All-settle :
      (P : WeightedCandidate W A → Type 0) (c : WeightedCandidate W A)
      (ps : List (WeightedCandidate W A))
      → P c
      → All P ps
      → All P (settle c ps)
  unfolding settle
  All-settle P c [] h k = (h, tt)
  All-settle P c (p ∷ ps) h k = ground (arith, All-settle P c ps h k.1)

  length-insert_best_candidate :
      (pool : List (WeightedCandidate W A)) (best : ℕ) (c : WeightedCandidate W A)
      → 0 < best
      → length pool ≤ best
      → length (insert_best_candidate pool best c) ≡ min best (suc (length pool))
  unfolding insert_best_candidate replace_last
  length-insert_best_candidate [] best c h k = ground (arith, length-settle c [])
  length-insert_best_candidate (p ∷ ps) best c h k =
      ground (arith, length-settle c ps, length-settle c (p ∷ ps))

  -- The pool holds as many candidates as there are eligible items, up to the best count.
  pub length-collect :
      (best : ℕ) (score : A → W) (items : List A) (pool : List (WeightedCandidate W A))
      → 0 < best
      → length pool ≤ best
      → length (collect best score items pool)
        ≡ min best (length pool + count_of (is_eligible score) items)
  unfolding collect
  length-collect best score [] pool h k = omega arith
  length-collect best score (x ∷ xs) pool h k = elim (Bool-cases (is_eligible score x)) [
    | inl e ↦
        let c = candidate_for score x in
        let more = insert_best_candidate pool best c in
        let size = length-insert_best_candidate pool best c h k in
        rw e (omega (arith, size, length-collect best score xs more h (omega (arith, size))))
    | inr e ↦ rw e (omega (arith, length-collect best score xs pool h k))
  ]

  pub All-insert_best_candidate :
      (P : WeightedCandidate W A → Type 0) (pool : List (WeightedCandidate W A)) (best : ℕ)
      (c : WeightedCandidate W A)
      → P c
      → All P pool
      → All P (insert_best_candidate pool best c)
  unfolding insert_best_candidate replace_last
  All-insert_best_candidate P [] best c h k = ground (arith, All-settle P c [] h k)
  All-insert_best_candidate P (p ∷ ps) best c h k =
      ground (arith, All-settle P c ps h k.1, All-settle P c (p ∷ ps) h k)

  -- What holds of the candidate of every eligible item holds of the whole pool.
  pub All-collect :
      (P : WeightedCandidate W A → Type 0) (best : ℕ) (score : A → W) (items : List A)
      (pool : List (WeightedCandidate W A))
      → ((x : A) → In x items → is_eligible score x ≡ true → P (candidate_for score x))
      → All P pool
      → All P (collect best score items pool)
  unfolding collect
  All-collect P best score [] pool h k = k
  All-collect P best score (x ∷ xs) pool h k =
      let later = λ (y : A) (m : In y xs). h y (inr m) in
      elim (Bool-cases (is_eligible score x)) [
        | inl e ↦ rw e (
            All-collect P best score xs _ later
              (All-insert_best_candidate P pool best _ (h x (inl refl) e) k))
        | inr e ↦ rw e (All-collect P best score xs pool later k)
      ]
