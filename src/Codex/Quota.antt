-- ===== src/Codex/Quota.antt =====
-- core/codex/scheduler.go: quotas in the snapshot of available credentials. `sort` is sort.Slice by
-- descending weighted score, and the clock is read once.
pub mod Unselected
pub mod Held
use meow_cli.Common.{
  ℕ, Bool, true, false, not, ◌&&◌, ◌||◌, List, [], ◌∷◌, Option, none, some, map, any, ltb,
  if◌then◌else◌,
}
use meow_cli.Common.Text.{Text, text_eq}
use meow_cli.Float.{Float, nought, one}
use meow_cli.Scheduling.Times.{Time}
use meow_cli.Scheduling.Refresh.{Cell, update_loop, refresh_rows}
use meow_cli.Codex.Tiers.{model_tier_spark}
use meow_cli.Codex.Rows.{AvailableRow, AvailableSnapshot, build_available_snapshot, row_by_id}
use meow_cli.Codex.Pool.{update_first}
use meow_cli.Codex.Weights.{Config}
use meow_cli.Codex.Scores.{calc_codex_score}

-- codexAPI.Quota, as far as the scheduler reads it.
pub record Quota (W : Type 0) : Type 0 where
  pub has_default_quota : Bool
  pub has_spark_quota : Bool
  pub quota_5h : W
  pub quota_7d : W
  pub quota_1mo : W
  pub quota_spark_5h : W
  pub quota_spark_7d : W
  pub quota_spark_1mo : W
  pub reset_5h : Time
  pub reset_7d : Time
  pub reset_1mo : Time
  pub reset_spark_5h : Time
  pub reset_spark_7d : Time
  pub reset_spark_1mo : Time

module _ {W : Type 0} ⦃f : Float W⦄ where
  -- CalcScore and CalcScoreSpark of a row's quotas.
  unfoldable pub row_score : Config → Time → AvailableRow W → W
  unfolding calc_codex_score
  row_score config now row =
      calc_codex_score row.quota_5h row.quota_7d row.quota_1mo row.reset_5h row.reset_7d
        row.reset_1mo config.quota_window_5h_seconds config.quota_window_7d_seconds now

  unfoldable pub row_score_spark : Config → Time → AvailableRow W → W
  unfolding calc_codex_score
  row_score_spark config now row =
      calc_codex_score row.quota_spark_5h row.quota_spark_7d row.quota_spark_1mo row.reset_spark_5h
        row.reset_spark_7d row.reset_spark_1mo config.quota_window_5h_seconds
        config.quota_window_7d_seconds now

  -- The quotas of a row are those of q; scores and weights are the row's own.
  unfoldable pub with_quota : Quota W → AvailableRow W → AvailableRow W
  with_quota q row = record row {
    quota_5h = q.quota_5h;
    quota_7d = q.quota_7d;
    quota_1mo = q.quota_1mo;
    quota_spark_5h = q.quota_spark_5h;
    quota_spark_7d = q.quota_spark_7d;
    quota_spark_1mo = q.quota_spark_1mo;
    reset_5h = q.reset_5h;
    reset_7d = q.reset_7d;
    reset_1mo = q.reset_1mo;
    reset_spark_5h = q.reset_spark_5h;
    reset_spark_7d = q.reset_spark_7d;
    reset_spark_1mo = q.reset_spark_1mo;
  }

  -- A credential that comes back starts with a full weight.
  abbrev pub renewed_weight : W → W → W → W
  renewed_weight old new weight = if f.lt old nought && f.le nought new then one else weight

  unfoldable pub apply_quota_row :
      Config → Time → Quota W → AvailableRow W → Option (AvailableRow W)
  unfolding row_score row_score_spark with_quota
  apply_quota_row config now q row =
      let base = row_score config now (with_quota q row) in
      let base_spark = row_score_spark config now (with_quota q row) in
      let new = if ltb now row.throttled_until then f.minus_one else base in
      let new_spark = if ltb now row.throttled_until_spark then f.minus_one else base_spark in
      some (record (with_quota q row) {
        score = new;
        score_spark = new_spark;
        weight = renewed_weight row.score new row.weight;
        weight_spark = renewed_weight row.score_spark new_spark row.weight_spark;
      })

  -- One round of the loop of applyQuotaToAvailable, up to the compare-and-swap.
  unfoldable pub apply_quota :
      (List (AvailableRow W) → List (AvailableRow W))
      → Config
      → Time
      → Text
      → Quota W
      → AvailableSnapshot W
      → Option (AvailableSnapshot W)
  unfolding apply_quota_row update_first
  apply_quota sort config now id q snap =
      if any (λ row. text_eq row.id id) snap.rows
      then elim (update_first id (apply_quota_row config now q) snap.rows) [
        | none ↦ none
        | some rows ↦ some (build_available_snapshot (sort rows))
      ]
      else none

  unfoldable pub apply_quota_to_available :
      (List (AvailableRow W) → List (AvailableRow W))
      → Config
      → Time
      → Text
      → Quota W
      → Cell (AvailableSnapshot W)
      → List (List (AvailableSnapshot W))
      → Cell (AvailableSnapshot W) × Bool
  unfolding apply_quota update_loop
  apply_quota_to_available sort config now id q = update_loop (apply_quota sort config now id q)

  -- The scores that are not negative are computed anew.
  unfoldable pub rescore_row : Config → Time → AvailableRow W → AvailableRow W
  unfolding row_score row_score_spark
  rescore_row config now row = record row {
    score = if f.le nought row.score then row_score config now row else row.score;
    score_spark =
        if f.le nought row.score_spark then row_score_spark config now row else row.score_spark;
  }

  unfoldable pub refresh_available_scores :
      (List (AvailableRow W) → List (AvailableRow W))
      → Config
      → Time
      → Cell (AvailableSnapshot W)
      → List (List (AvailableSnapshot W))
      → Cell (AvailableSnapshot W) × Bool
  unfolding rescore_row refresh_rows
  refresh_available_scores sort config now =
      refresh_rows (λ snap. snap.rows) (λ rows. build_available_snapshot (sort rows))
        (rescore_row config now)

  unfoldable pub row_quota : AvailableRow W → Quota W
  row_quota row = record {
    has_default_quota = false;
    has_spark_quota = false;
    quota_5h = row.quota_5h;
    quota_7d = row.quota_7d;
    quota_1mo = row.quota_1mo;
    quota_spark_5h = row.quota_spark_5h;
    quota_spark_7d = row.quota_spark_7d;
    quota_spark_1mo = row.quota_spark_1mo;
    reset_5h = row.reset_5h;
    reset_7d = row.reset_7d;
    reset_1mo = row.reset_1mo;
    reset_spark_5h = row.reset_spark_5h;
    reset_spark_7d = row.reset_spark_7d;
    reset_spark_1mo = row.reset_spark_1mo;
  }

  unfoldable pub available_quota : Text → Option (AvailableSnapshot W) → Option (Quota W)
  unfolding row_quota row_by_id
  available_quota id none = none
  available_quota id (some snap) = elim (row_by_id snap.rows id) [
    | none ↦ none
    | some row ↦ some (row_quota row)
  ]

  -- The quota of a tier that q does not have is the current one.
  unfoldable pub merge_quota : Quota W → Quota W → Quota W
  merge_quota current q =
      let d = q.has_default_quota in
      let p = q.has_spark_quota in
      record {
        has_default_quota = true;
        has_spark_quota = true;
        quota_5h = if d then q.quota_5h else current.quota_5h;
        quota_7d = if d then q.quota_7d else current.quota_7d;
        quota_1mo = if d then q.quota_1mo else current.quota_1mo;
        quota_spark_5h = if p then q.quota_spark_5h else current.quota_spark_5h;
        quota_spark_7d = if p then q.quota_spark_7d else current.quota_spark_7d;
        quota_spark_1mo = if p then q.quota_spark_1mo else current.quota_spark_1mo;
        reset_5h = if d then q.reset_5h else current.reset_5h;
        reset_7d = if d then q.reset_7d else current.reset_7d;
        reset_1mo = if d then q.reset_1mo else current.reset_1mo;
        reset_spark_5h = if p then q.reset_spark_5h else current.reset_spark_5h;
        reset_spark_7d = if p then q.reset_spark_7d else current.reset_spark_7d;
        reset_spark_1mo = if p then q.reset_spark_1mo else current.reset_spark_1mo;
      }

  unfoldable pub merge_quota_update : Text → Quota W → Option (AvailableSnapshot W) → Quota W
  unfolding available_quota merge_quota
  merge_quota_update id q available =
      let current = available_quota id available in
      if q.has_default_quota && q.has_spark_quota
        || not q.has_default_quota && not q.has_spark_quota
      then q
      else elim current [ none ↦ q | some c ↦ merge_quota c q ]

  -- The merge reads the pointer once, before the loop.
  unfoldable pub update_quota :
      (List (AvailableRow W) → List (AvailableRow W))
      → Config
      → Time
      → Text
      → Quota W
      → Cell (AvailableSnapshot W)
      → List (List (AvailableSnapshot W))
      → Cell (AvailableSnapshot W)
  unfolding merge_quota_update apply_quota_to_available
  update_quota sort config now id q c rounds =
      let merged = merge_quota_update id q c.value in
      let updated = (apply_quota_to_available sort config now id merged c rounds).0 in
      if not q.has_default_quota && not q.has_spark_quota then c else updated

  unfoldable pub quota_refresh_has_tier : Option (Quota W) → Text → Bool
  unfolding text_eq
  quota_refresh_has_tier none tier = false
  quota_refresh_has_tier (some q) tier =
      if text_eq tier model_tier_spark then q.has_spark_quota else q.has_default_quota
