-- ===== src/Codex/Storing.antt =====
-- core/codex/scheduler.go: StoreQuota and updatePlanType. The database is a parameter, and RefreshAvailable
-- lists its rows and rebuilds the snapshot from them.
use meow_cli.Common.{
  Bool, true, false, not, ◌&&◌, ◌||◌, List, [], Option, none, some, any, ◌==◌, if◌then◌else◌,
}
use meow_cli.Common.Text.{Text, text_eq}
use meow_cli.Float.{Float}
use meow_cli.Codex.PlanTypes.{normalize_plan_type, plan_code}
use meow_cli.Codex.Rows.{AvailableRow, AvailableSnapshot}
use meow_cli.Codex.Throttle.{Setting}
use meow_cli.Codex.Quota.{Quota, apply_quota}
use meow_cli.Codex.Unauthorized.{Guarded}
use meow_cli.Codex.Available.{AvailableCodexRow, refresh_available_from_rows}

-- The operations of the store; each tells whether it had no error.
pub record QuotaStore (D W : Type 0) : Type 0 where
  pub update_codex_plan_type : Text → Text → D → D × Bool
  pub upsert_quota : Text → Quota W → D → D × Bool
  pub restore_expired_throttled_codex : D → D × Bool
  pub list_available_codex : D → Option (List (AvailableCodexRow W))

module _ {W : Type 0} ⦃f : Float W⦄ where
  abbrev rows_of : Option (AvailableSnapshot W) → List (AvailableRow W)
  rows_of none = []
  rows_of (some snap) = snap.rows

  -- applyQuotaToAvailable without interference: the snapshot, and whether it was changed.
  unfoldable pub cache_quota :
      Setting W
      → Text
      → Quota W
      → Option (AvailableSnapshot W)
      → Option (AvailableSnapshot W) × Bool
  unfolding apply_quota
  cache_quota e id q none = (none, false)
  cache_quota e id q (some snap) = elim (apply_quota e.sort e.config e.now id q snap) [
    | none ↦ (some snap, false)
    | some new ↦ (some new, true)
  ]

module _ {D W : Type 0} ⦃f : Float W⦄ where
  -- Whether the plan type was written.
  unfoldable pub update_plan_type :
      QuotaStore D W → Text → Text → Option (AvailableSnapshot W) → D → D × Bool
  unfolding normalize_plan_type plan_code text_eq
  update_plan_type store id plan_type available d =
      let normalized = normalize_plan_type plan_type in
      let known =
        any (λ row. text_eq row.id id && row.plan_type_code == plan_code normalized)
          (rows_of available) in
      if text_eq normalized [] || known
      then (d, false)
      else store.update_codex_plan_type id normalized d

  -- RefreshAvailable, without the calls that share a result. An error changes nothing here.
  unfoldable pub refresh_available : QuotaStore D W → Setting W → Guarded W × D → Guarded W × D
  unfolding refresh_available_from_rows
  refresh_available store e (s, d) =
      let (d', ok) = store.restore_expired_throttled_codex d in
      let listed = store.list_available_codex d' in
      if not ok
      then (s, d')
      else elim listed [ none ↦ (s, d') | some rows ↦ (refresh_available_from_rows e rows s, d') ]

  unfoldable pub store_quota :
      QuotaStore D W → Setting W → Text → Text → Quota W → Guarded W × D → Guarded W × D
  unfolding update_plan_type cache_quota refresh_available
  store_quota store e id plan_type q (s, d) =
      let (d1, plan_updated) = update_plan_type store id plan_type s.scheduler.available d in
      let (available, cached) = cache_quota e id q s.scheduler.available in
      let s' = record s { scheduler = record s.scheduler { available = available } } in
      let (d2, ok) = store.upsert_quota id q d1 in
      if not q.has_default_quota && not q.has_spark_quota
      then (s, d)
      else if not ok || cached && not plan_updated
      then (s', d2)
      else refresh_available store e (s', d2)
