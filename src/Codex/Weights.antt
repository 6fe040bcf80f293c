-- ===== src/Codex/Weights.antt =====
-- core/codex/scheduler.go: the weight of a credential from the error rate of its log rows.
-- `sort` is sort.Slice by descending weighted score. The loop of applyCredentialWeight is one update of
-- the snapshot, as Scheduling/Refresh shows for every loop of its kind.
use meow_cli.Common.{ℕ, Bool, List, [], ◌∷◌, Option, none, some, any, ◌==◌, if◌then◌else◌}
use meow_cli.Common.Text.{Text, text_eq, bytes}
use meow_cli.Common.Table.{lookup}
use meow_cli.Float.{Float, nought, one}
use meow_cli.Scheduling.Times.{Time, window_start, latest_window_start}
use meow_cli.Scheduling.Best.{calc_weight}
use meow_cli.Logs.Store.{Store, Limits}
use meow_cli.Logs.ErrorRates.{error_rates_for_credentials}
use meow_cli.Codex.Tiers.{model_tier_default, model_tier_spark}
use meow_cli.Codex.Rows.{AvailableRow, AvailableSnapshot, build_available_snapshot, row_by_id}
use meow_cli.Codex.Pool.{update_first}

abbrev pub monthly_window_seconds : ℕ
monthly_window_seconds = 2_592_000

abbrev pub handler_codex : Text
handler_codex = bytes "codex"

-- The settings that the handlers read.
pub record Config : Type 0 where
  pub quota_window_5h_seconds : ℕ
  pub quota_window_7d_seconds : ℕ
  pub throttle_base : ℕ
  pub throttle_max : ℕ
  pub limits : Limits

unfoldable pub error_rate_since : Time → Time → Time → Config → Time
unfolding latest_window_start window_start
error_rate_since reset_5h reset_7d reset_1mo config = latest_window_start (
    window_start reset_5h config.quota_window_5h_seconds
    ∷ window_start reset_7d config.quota_window_7d_seconds
    ∷ window_start reset_1mo monthly_window_seconds
    ∷ [])

module _ {W : Type 0} ⦃f : Float W⦄ where
  unfoldable pub error_rate_since_for_tier : Config → AvailableRow W → Text → Option Time
  unfolding text_eq error_rate_since
  error_rate_since_for_tier config row tier =
      if text_eq tier model_tier_spark
      then some (error_rate_since row.reset_spark_5h row.reset_spark_7d row.reset_spark_1mo config)
      else if text_eq tier model_tier_default
      then some (error_rate_since row.reset_5h row.reset_7d row.reset_1mo config)
      else none

  unfoldable pub weigh_row : Text → W → AvailableRow W → Option (AvailableRow W)
  weigh_row tier weight row =
      if text_eq tier model_tier_spark
      then some (record row { weight_spark = weight })
      else if text_eq tier model_tier_default
      then some (record row { weight = weight })
      else none

  -- `none` where the loop returns without a store.
  unfoldable pub weighed :
      (List (AvailableRow W) → List (AvailableRow W))
      → Text
      → Text
      → W
      → AvailableSnapshot W
      → Option (AvailableSnapshot W)
  weighed sort id tier weight snap =
      if any (λ row. text_eq row.id id) snap.rows
      then elim (update_first id (weigh_row tier weight) snap.rows) [
        | none ↦ none
        | some rows ↦ some (build_available_snapshot (sort rows))
      ]
      else none

  unfoldable pub apply_credential_weight :
      (List (AvailableRow W) → List (AvailableRow W))
      → Text
      → Text
      → W
      → Option (AvailableSnapshot W)
      → Option (AvailableSnapshot W)
  apply_credential_weight sort id tier weight none = none
  apply_credential_weight sort id tier weight (some snap) =
      elim (weighed sort id tier weight snap) [ none ↦ some snap | some new ↦ some new ]

  weight_of : Option W → W
  unfolding calc_weight
  weight_of none = one
  weight_of (some rate) = if f.lt nought rate then calc_weight rate else one

  -- The snapshot and the log, behind the reads of refreshCredentialWeight.
  unfoldable pub refresh_credential_weight :
      (List (AvailableRow W) → List (AvailableRow W))
      → Bool
      → Time
      → Config
      → Text
      → Text
      → Option (AvailableSnapshot W)
      → Store W
      → Option (AvailableSnapshot W) × Store W
  unfolding weight_of row_by_id error_rate_since_for_tier
  refresh_credential_weight sort ctx_done now config id tier none logs = (none, logs)
  refresh_credential_weight sort ctx_done now config id tier (some snap) logs =
      if text_eq id [] then (some snap, logs) else elim (row_by_id snap.rows id) [
        | none ↦ (some snap, logs)
        | some row ↦ elim (error_rate_since_for_tier config row tier) [
          | none ↦ (some snap, logs)
          | some since ↦
              if since == 0
              then (apply_credential_weight sort id tier one (some snap), logs)
              else let (logs', rates) =
                  error_rates_for_credentials ctx_done now config.limits handler_codex tier
                    (record { credential_id = id; since = since } ∷ []) 1 logs in
                elim rates [
                  | none ↦ (some snap, logs')
                  | some table ↦ (
                    apply_credential_weight sort id tier (weight_of (lookup id table)) (some snap),
                    logs',
                  )
                ]
        ]
      ]
