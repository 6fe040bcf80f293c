-- ===== src/Scheduling/Best.antt =====
-- core/scheduling/scheduling.go: the weights, and PickWeightedFromBest with its candidate pool.
-- A pool is the slice `candidates` back to front: its head is the last, lowest candidate.
pub mod Pool
pub mod Pick
pub mod Top
use mathlib.Core.List.{reverse}
use meow_cli.Common.{
  ℕ, Bool, true, false, List, [], ◌∷◌, Option, none, some, ltb, ◌==◌, length, if◌then◌else◌,
}
use meow_cli.Float.{Float, nought, one}

pub record WeightedCandidate (W A : Type 0) : Type 0 where
  pub item : A
  pub score : W
  pub weight : W

module _ {W : Type 0} ⦃f : Float W⦄ where
  unfoldable pub calc_weight : W → W
  calc_weight error_rate = f.sub one error_rate

  unfoldable pub adjusted_score : W → W → W
  adjusted_score score weight = if f.lt score nought then score else f.mul score weight

module _ {W A : Type 0} ⦃f : Float W⦄ where
  -- The loop that swaps the newest candidate towards the front while it beats its neighbour.
  unfoldable pub settle :
      WeightedCandidate W A → List (WeightedCandidate W A) → List (WeightedCandidate W A)
  settle c [] = c ∷ []
  settle c (p ∷ ps) = if f.lt p.score c.score then p ∷ settle c ps else c ∷ p ∷ ps

  -- In a full pool the newest candidate replaces the last one, if it beats that.
  unfoldable pub replace_last :
      WeightedCandidate W A → List (WeightedCandidate W A) → List (WeightedCandidate W A)
  unfolding settle
  replace_last c [] = []
  replace_last c (p ∷ ps) = if f.le c.score p.score then p ∷ ps else settle c ps

  unfoldable pub insert_best_candidate :
      List (WeightedCandidate W A) → ℕ → WeightedCandidate W A → List (WeightedCandidate W A)
  unfolding settle replace_last
  insert_best_candidate pool best c =
      if ltb (length pool) best then settle c pool else replace_last c pool

  abbrev pub candidate_for : (A → W) → A → WeightedCandidate W A
  candidate_for score item = record {
    item = item;
    score = score item;
    weight = f.max_of (score item) f.smallest;
  }

  -- `s <= 0` rejects an item; NaN passes.
  abbrev pub is_eligible : (A → W) → A → Bool
  is_eligible score item = if f.le (score item) nought then false else true

  unfoldable pub collect :
      ℕ → (A → W) → List A → List (WeightedCandidate W A) → List (WeightedCandidate W A)
  collect best score [] pool = pool
  collect best score (x ∷ xs) pool = collect best score xs (
      if is_eligible score x then insert_best_candidate pool best (candidate_for score x) else pool)

  unfoldable pub total_weight : List (WeightedCandidate W A) → W → W
  total_weight [] sum = sum
  total_weight (c ∷ cs) sum = total_weight cs (f.add sum c.weight)

  -- The loop over the candidates, best first; it falls back on the last one.
  unfoldable pub draw : W → WeightedCandidate W A → List (WeightedCandidate W A) → A
  draw pick c [] = c.item
  draw pick c (d ∷ ds) =
      let left = f.sub pick c.weight in
      let later = draw left d ds in if f.le left nought then c.item else later

  unfoldable pub draw_from : W → List (WeightedCandidate W A) → Option A
  unfolding total_weight draw
  draw_from random [] = none
  draw_from random (c ∷ cs) = some (draw (f.mul random (total_weight (c ∷ cs) nought)) c cs)

  -- `random` is the value of rand.Float64; a best count of 0 stands for one that is not positive.
  unfoldable pub pick_weighted_from_best : List A → ℕ → (A → W) → W → Option A
  unfolding collect draw_from
  pick_weighted_from_best items best score random =
      if best == 0 then none else draw_from random (reverse (collect best score items []))
