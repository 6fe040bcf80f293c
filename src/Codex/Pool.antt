-- ===== src/Codex/Pool.antt =====
-- core/codex/scheduler.go: evicting, suspending and throttling in the cached snapshot. The pointer
-- `available` is an option; the scheduler's lock makes each operation one step.
pub mod Barred
use meow_cli.Common.{Bool, List, [], ◌∷◌, Option, none, some, if◌then◌else◌}
use meow_cli.Common.Text.{Text, text_eq}
use meow_cli.Float.{Float}
use meow_cli.Scheduling.Times.{Time}
use meow_cli.Codex.Tiers.{model_tier_default, model_tier_spark}
use meow_cli.Codex.Rows.{AvailableRow, AvailableSnapshot, build_available_snapshot}

module _ {W : Type 0} ⦃f : Float W⦄ where
  unfoldable pub without_id : Text → List (AvailableRow W) → List (AvailableRow W)
  without_id id [] = []
  without_id id (row ∷ rows) =
      if text_eq row.id id then without_id id rows else row ∷ without_id id rows

  unfoldable pub evict_credential :
      Text → Option (AvailableSnapshot W) → Option (AvailableSnapshot W)
  evict_credential id none = none
  evict_credential id (some snap) = some (build_available_snapshot (without_id id snap.rows))

  -- The loops that change the first row of an id and break; `none` where the change returns early.
  unfoldable pub update_first :
      Text
      → (AvailableRow W → Option (AvailableRow W))
      → List (AvailableRow W)
      → Option (List (AvailableRow W))
  update_first id change [] = some []
  update_first id change (row ∷ rows) =
      let rest = update_first id change rows in
      if text_eq row.id id
      then elim (change row) [ none ↦ none | some row' ↦ some (row' ∷ rows) ]
      else elim rest [ none ↦ none | some rows' ↦ some (row ∷ rows') ]

  unfoldable pub suspend_row : Text → AvailableRow W → Option (AvailableRow W)
  suspend_row tier row =
      if text_eq tier model_tier_spark
      then some (record row { score_spark = f.minus_one })
      else if text_eq tier model_tier_default
      then some (record row { score = f.minus_one })
      else none

  unfoldable pub throttle_row : Text → Time → AvailableRow W → Option (AvailableRow W)
  throttle_row tier until row =
      if text_eq tier model_tier_spark
      then some (record row { score_spark = f.minus_one; throttled_until_spark = until })
      else if text_eq tier model_tier_default
      then some (record row { score = f.minus_one; throttled_until = until })
      else none

  unfoldable pub change_snapshot :
      Text → (AvailableRow W → Option (AvailableRow W)) → AvailableSnapshot W → AvailableSnapshot W
  change_snapshot id change snap = elim (update_first id change snap.rows) [
    | none ↦ snap
    | some rows ↦ build_available_snapshot rows
  ]

  unfoldable pub suspend_credential_tier :
      Text → Text → Option (AvailableSnapshot W) → Option (AvailableSnapshot W)
  suspend_credential_tier id tier none = none
  suspend_credential_tier id tier (some snap) = some (change_snapshot id (suspend_row tier) snap)

  unfoldable pub throttle_credential_tier :
      Text → Text → Time → Option (AvailableSnapshot W) → Option (AvailableSnapshot W)
  throttle_credential_tier id tier until none = none
  throttle_credential_tier id tier until (some snap) =
      some (change_snapshot id (throttle_row tier until) snap)
