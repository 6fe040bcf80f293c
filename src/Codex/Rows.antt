-- ===== src/Codex/Rows.antt =====
-- core/codex/scheduler.go: the snapshot of available credentials.
use meow_cli.Common.{
  ℕ, suc, Bool, true, false, List, [], ◌∷◌, Option, none, some, ◌==◌, ◌||◌, if◌then◌else◌,
}
use meow_cli.Common.Text.{Text, text_eq}
use meow_cli.Float.{Float, nought}
use meow_cli.Scheduling.Times.{Time}
use meow_cli.Scheduling.Best.{adjusted_score}
use meow_cli.Codex.Tiers.{model_tier_spark}

pub record AvailableRow (W : Type 0) : Type 0 where
  pub id : Text
  pub plan_type_code : ℕ
  pub quota_5h : W
  pub quota_7d : W
  pub quota_1mo : W
  pub quota_spark_5h : W
  pub quota_spark_7d : W
  pub quota_spark_1mo : W
  pub reset_5h : Time
  pub reset_7d : Time
  pub reset_1mo : Time
  pub reset_spark_5h : Time
  pub reset_spark_7d : Time
  pub reset_spark_1mo : Time
  pub throttled_until : Time
  pub throttled_until_spark : Time
  pub score : W
  pub score_spark : W
  pub weight : W
  pub weight_spark : W

-- `best_by_plan_type` is a Go map: its pairs of a plan type code and an index.
pub record AvailableSnapshot (W : Type 0) : Type 0 where
  pub rows : List (AvailableRow W)
  pub best_by_plan_type : List (ℕ × ℕ)

has_plan : ℕ → List (ℕ × ℕ) → Bool
has_plan code [] = false
has_plan code ((c, i) ∷ best) = if c == code then true else has_plan code best

module _ {W : Type 0} ⦃f : Float W⦄ where
  unfoldable pub weighted_tier_score : Text → AvailableRow W → W
  unfolding adjusted_score text_eq
  weighted_tier_score tier row =
      if text_eq tier model_tier_spark
      then adjusted_score row.score_spark row.weight_spark
      else adjusted_score row.score row.weight

  -- The loop of buildAvailableSnapshot, from the index on.
  unfoldable pub best_loop : ℕ → List (AvailableRow W) → List (ℕ × ℕ) → List (ℕ × ℕ)
  unfolding adjusted_score has_plan
  best_loop i [] best = best
  best_loop i (row ∷ rows) best = best_loop (suc i) rows (
      if f.lt (adjusted_score row.score row.weight) nought || has_plan row.plan_type_code best
      then best
      else (row.plan_type_code, i) ∷ best)

  unfoldable pub build_available_snapshot : List (AvailableRow W) → AvailableSnapshot W
  unfolding best_loop
  build_available_snapshot rows = record { rows = rows; best_by_plan_type = best_loop 0 rows [] }

  unfoldable pub row_by_id : List (AvailableRow W) → Text → Option (AvailableRow W)
  row_by_id [] id = none
  row_by_id (row ∷ rows) id = if text_eq row.id id then some row else row_by_id rows id
