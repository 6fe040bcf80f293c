-- ===== src/Codex/Memory.antt =====
-- core/codex/scheduler.go: applyMemoryThrottles, which carries throttles that only the memory knows into
-- the rows that were rebuilt from the database.
use mathlib.Core.Bool.{true≢false}
use meow_cli.Common.{
  ◌≡◌, ◌≢◌, ◌∙◌, inl, inr, sym, false, List, [], ◌∷◌, arith, ltb, ◌==◌, Bool-cases, if◌then◌else◌,
}
use meow_cli.Common.Text.{Text, text_eq, text_eq_iff}
use meow_cli.Common.Table.{Table}
use meow_cli.Float.{Float, IsFloat}
use meow_cli.Scheduling.Times.{Time}
use meow_cli.Codex.Tiers.{model_tier_default, model_tier_spark}
use meow_cli.Codex.Rows.{AvailableRow}
use meow_cli.Codex.Pool.Barred.{IsTier, IsBarred, default_tier, weighted_tier_score-below}
use meow_cli.Codex.Throttle.{ThrottleState, active_throttle_until}

module _ {W : Type 0} ⦃f : Float W⦄ where
  -- `until` is a deadline in the table that has not passed, or zero.
  unfoldable pub apply_default_throttle : Time → AvailableRow W → AvailableRow W
  apply_default_throttle until row = if until == 0 then row else record row {
    throttled_until = if ltb row.throttled_until until then until else row.throttled_until;
    score = f.minus_one;
  }

  unfoldable pub apply_spark_throttle : Time → AvailableRow W → AvailableRow W
  apply_spark_throttle until row = if until == 0 then row else record row {
    throttled_until_spark =
        if ltb row.throttled_until_spark until then until else row.throttled_until_spark;
    score_spark = f.minus_one;
  }

  unfoldable pub apply_memory_throttle :
      Table ThrottleState → Time → AvailableRow W → AvailableRow W
  apply_memory_throttle states now row =
      apply_spark_throttle (active_throttle_until states row.id model_tier_spark now)
        (apply_default_throttle (active_throttle_until states row.id model_tier_default now) row)

  unfoldable pub apply_memory_throttles :
      Table ThrottleState → Time → List (AvailableRow W) → List (AvailableRow W)
  apply_memory_throttles states now [] = []
  apply_memory_throttles states now (row ∷ rows) =
      apply_memory_throttle states now row ∷ apply_memory_throttles states now rows

  pub id-apply_memory_throttle :
      (states : Table ThrottleState) (now : Time) (row : AvailableRow W)
      → (apply_memory_throttle states now row).id ≡ row.id
  unfolding apply_memory_throttle apply_default_throttle apply_spark_throttle
  id-apply_memory_throttle states now row = ground arith

  -- The score that the tier reads is lowered where the tier's throttle is active.
  low-apply_memory_throttle :
      (states : Table ThrottleState) (now : Time) (tier : Text) (row : AvailableRow W)
      → IsTier tier
      → active_throttle_until states row.id tier now ≢ 0
      → let row' = apply_memory_throttle states now row in
        (if text_eq tier model_tier_spark then row'.score_spark else row'.score) ≡ f.minus_one
  unfolding apply_memory_throttle apply_default_throttle apply_spark_throttle
  low-apply_memory_throttle states now tier row known active =
      elim (Bool-cases (text_eq tier model_tier_spark)) [
        | inl e ↦
            let same : tier ≡ model_tier_spark = (text_eq_iff tier model_tier_spark).0 e in
            let set : (active_throttle_until states row.id model_tier_spark now == 0) ≡ false =
              is_set _ (rw same at active) in
            rw e (rw set)
        | inr e ↦
            let same : tier ≡ model_tier_default =
              (text_eq_iff tier model_tier_default).0 (default_tier tier known e) in
            let set : (active_throttle_until states row.id model_tier_default now == 0) ≡ false =
              is_set _ (rw same at active) in
            rw e (unspark (active_throttle_until states row.id model_tier_spark now) _ ∙ rw set)
      ]
    where
      is_set : (until : Time) → until ≢ 0 → (until == 0) ≡ false
      is_set until h = ground arith

      unspark : (until : Time) (r : AvailableRow W) → (apply_spark_throttle until r).score ≡ r.score
      unspark until r = unfold apply_spark_throttle in ground arith

  -- Under the laws of comparison, a credential with an active throttle in memory for a known tier
  -- scores below zero for that tier in every row that was rebuilt for it.
  pub apply_memory_throttles-IsBarred :
      (laws : IsFloat W) (states : Table ThrottleState) (now : Time) (id tier : Text)
      (rows : List (AvailableRow W))
      → IsTier tier
      → active_throttle_until states id tier now ≢ 0
      → IsBarred id tier (apply_memory_throttles states now rows)
  unfolding apply_memory_throttles
  apply_memory_throttles-IsBarred laws states now id tier [] known active = tt
  apply_memory_throttles-IsBarred laws states now id tier (row ∷ rows) known active =
      let row' = apply_memory_throttle states now row in
      let rest = apply_memory_throttles-IsBarred laws states now id tier rows known active in
      elim (Bool-cases (text_eq row.id id)) [
        | inl e ↦
            let same : row.id ≡ id = (text_eq_iff row.id id).0 e in
            let active' : active_throttle_until states row.id tier now ≢ 0 = rw same active in
            let low = low-apply_memory_throttle states now tier row known active' in
            (inr (weighted_tier_score-below laws tier row' low), rest)
        | inr e ↦
            let other : row'.id ≢ id = λ same. true≢false (
              sym ((text_eq_iff row.id id).1 (sym (id-apply_memory_throttle states now row) ∙ same))
              ∙ e) in
            (inl other, rest)
      ]
