-- ===== src/Codex/Available.antt =====
-- core/codex/scheduler.go: refreshAvailableFromRows, which rebuilds the snapshot from the rows of the
-- database, with computeErrorRates. The clock and the settings are read once, and the log store is
-- there. The manager's PruneStaleEntries is left out.
pub mod Checked
use meow_cli.Common.{
  ℕ, Bool, true, false, List, [], ◌∷◌, Option, none, some, is_some, map, ltb, ◌==◌, ◌&&◌, not, ◌||◌,
  if◌then◌else◌,
}
use meow_cli.Common.Text.{Text}
use meow_cli.Common.Table.{Table, lookup}
use meow_cli.Float.{Float, nought, one}
use meow_cli.Scheduling.Times.{Time}
use meow_cli.Scheduling.Best.{calc_weight}
use meow_cli.Logs.Store.{Store}
use meow_cli.Logs.ErrorRates.{ErrorRateSince, error_rates_for_credentials}
use meow_cli.Codex.Tiers.{model_tier_default, model_tier_spark}
use meow_cli.Codex.PlanTypes.{plan_code}
use meow_cli.Codex.Rows.{AvailableRow, build_available_snapshot}
use meow_cli.Codex.Weights.{Config, error_rate_since, handler_codex}
use meow_cli.Codex.Throttle.{Setting, Scheduler, clear_expired_throttles}
use meow_cli.Codex.Memory.{apply_memory_throttles}
use meow_cli.Codex.Quota.{Quota, row_score, row_score_spark}
use meow_cli.Codex.Unauthorized.{Guarded, is_credential_under_validation}

-- db.ListAvailableCodexRow: the quotas are those of a Quota without flags.
pub record AvailableCodexRow (W : Type 0) : Type 0 where
  pub id : Text
  pub plan_type : Text
  pub quota : Quota W
  pub throttled_until : Time
  pub throttled_until_spark : Time
  pub synced_at : Time

abbrev min_error_rate_samples : ℕ
min_error_rate_samples = 1

module _ {W : Type 0} ⦃f : Float W⦄ where
  unfoldable pub unscored : AvailableCodexRow W → AvailableRow W
  unfolding plan_code
  unscored r = record {
    id = r.id;
    plan_type_code = plan_code r.plan_type;
    quota_5h = r.quota.quota_5h;
    quota_7d = r.quota.quota_7d;
    quota_1mo = r.quota.quota_1mo;
    quota_spark_5h = r.quota.quota_spark_5h;
    quota_spark_7d = r.quota.quota_spark_7d;
    quota_spark_1mo = r.quota.quota_spark_1mo;
    reset_5h = r.quota.reset_5h;
    reset_7d = r.quota.reset_7d;
    reset_1mo = r.quota.reset_1mo;
    reset_spark_5h = r.quota.reset_spark_5h;
    reset_spark_7d = r.quota.reset_spark_7d;
    reset_spark_1mo = r.quota.reset_spark_1mo;
    throttled_until = r.throttled_until;
    throttled_until_spark = r.throttled_until_spark;
    score = nought;
    score_spark = nought;
    weight = one;
    weight_spark = one;
  }

  unfoldable pub available_row : Config → Time → AvailableCodexRow W → AvailableRow W
  unfolding unscored row_score row_score_spark
  available_row config now r =
      let row = unscored r in
      record row {
        score =
            if not (r.throttled_until == 0) && ltb now r.throttled_until
            then f.minus_one
            else row_score config now row;
        score_spark =
            if not (r.throttled_until_spark == 0) && ltb now r.throttled_until_spark
            then f.minus_one
            else row_score_spark config now row;
      }

  unfoldable pub scored_rows :
      Config → Time → Guarded W → List (AvailableCodexRow W) → List (AvailableRow W)
  unfolding available_row is_credential_under_validation
  scored_rows config now s [] = []
  scored_rows config now s (r ∷ rows) =
      let rest = scored_rows config now s rows in
      if r.synced_at == 0 || is_credential_under_validation s r.id
      then rest
      else available_row config now r ∷ rest

  -- The credentials whose rates are asked for: those with a window.
  unfoldable pub rates_since : (AvailableRow W → Time) → List (AvailableRow W) → List ErrorRateSince
  rates_since since [] = []
  rates_since since (row ∷ rows) =
      let rest = rates_since since rows in
      if since row == 0 then rest else record { credential_id = row.id; since = since row } ∷ rest

  unfoldable pub weight_or : W → Option W → W
  unfolding calc_weight
  weight_or old none = old
  weight_or old (some rate) = if f.lt nought rate then calc_weight rate else old

  abbrev pub rated : Table W → Table W → AvailableRow W → AvailableRow W
  rated rates rates_spark row = record row {
    weight = weight_or row.weight (lookup row.id rates);
    weight_spark = weight_or row.weight_spark (lookup row.id rates_spark);
  }

  -- Either call may fail, behind which no weight changes.
  unfoldable pub rate_rows :
      List (AvailableRow W) → Option (Table W) → Option (Table W) → List (AvailableRow W)
  unfolding weight_or
  rate_rows rows none rates_spark = rows
  rate_rows rows (some rates) none = rows
  rate_rows rows (some rates) (some rates_spark) = map (rated rates rates_spark) rows

  -- The second call is made only behind a success of the first.
  unfoldable pub compute_error_rates :
      Setting W → List (AvailableRow W) → Store W → List (AvailableRow W) × Store W
  unfolding error_rate_since rates_since rate_rows
  compute_error_rates e [] logs = ([], logs)
  compute_error_rates e (row ∷ rows) logs =
      let all = row ∷ rows in
      let since =
        rates_since (λ r. error_rate_since r.reset_5h r.reset_7d r.reset_1mo e.config) all in
      let since_spark =
        rates_since
          (λ r. error_rate_since r.reset_spark_5h r.reset_spark_7d r.reset_spark_1mo e.config)
          all in
      let (logs1, rates) =
        error_rates_for_credentials e.ctx_done e.now e.config.limits handler_codex
          model_tier_default since min_error_rate_samples logs in
      let (logs2, rates_spark) =
        error_rates_for_credentials e.ctx_done e.now e.config.limits handler_codex model_tier_spark
          since_spark min_error_rate_samples logs1 in
      (rate_rows all rates rates_spark, if is_some rates then logs2 else logs1)

  unfoldable pub refresh_available_from_rows :
      Setting W → List (AvailableCodexRow W) → Guarded W → Guarded W
  unfolding scored_rows apply_memory_throttles compute_error_rates build_available_snapshot
      clear_expired_throttles
  refresh_available_from_rows e db_rows s =
      let rows =
        apply_memory_throttles s.scheduler.throttle e.now (scored_rows e.config e.now s db_rows) in
      let (weighed, logs) = compute_error_rates e rows s.scheduler.logs in
      record s {
        scheduler = record {
          throttle = clear_expired_throttles e.now s.scheduler.throttle;
          available = some (build_available_snapshot (e.sort weighed));
          logs = logs;
        };
      }
