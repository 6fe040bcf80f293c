-- ===== src/Codex/Select.antt =====
-- core/codex/scheduler.go: selectCredential on the snapshot that listAvailable returns.
pub mod Selected
use meow_cli.Common.{
  ℕ, suc, Bool, true, false, List, [], ◌∷◌, Option, none, some, ◌==◌, ◌&&◌, not, if◌then◌else◌,
}
use meow_cli.Common.Text.{Text, text_eq}
use meow_cli.Float.{Float, nought}
use meow_cli.Scheduling.Best.{pick_weighted_from_best}
use meow_cli.Scheduling.Plans.{plan_type_allowed, plan_type_code_set}
use meow_cli.Codex.Rows.{AvailableRow, AvailableSnapshot, weighted_tier_score, row_by_id}

module _ {W : Type 0} ⦃f : Float W⦄ where
  -- The score function that selectWeightedCredential passes on.
  abbrev pub matched_score : Text → (AvailableRow W → Bool) → AvailableRow W → W
  matched_score tier match row = if match row then weighted_tier_score tier row else f.minus_one

  unfoldable pub select_weighted_credential :
      ℕ → List (AvailableRow W) → Text → (AvailableRow W → Bool) → W → Option (AvailableRow W)
  select_weighted_credential best rows tier match random =
      pick_weighted_from_best rows best (matched_score tier match) random

  -- The loop over the preferred codes. `random` gives the value of rand.Float64 for each call of
  -- selectWeightedCredential, by its number.
  unfoldable pub preferred_loop :
      ℕ → List (AvailableRow W) → Text → List ℕ → List ℕ → (ℕ → W) → ℕ → Option (AvailableRow W)
  preferred_loop best rows tier allowed [] random call =
      select_weighted_credential best rows tier
        (λ row. plan_type_allowed row.plan_type_code allowed) (random call)
  preferred_loop best rows tier allowed (code ∷ codes) random call =
      let later = preferred_loop best rows tier allowed codes random (suc call) in
      if not (plan_type_allowed code allowed)
      then later
      else elim (select_weighted_credential best rows tier (λ row. row.plan_type_code == code)
          (random call)) [ some row ↦ some row | none ↦ later ]

  -- A preferred credential is taken as it is, or nothing is.
  unfoldable pub select_preferred : List (AvailableRow W) → Text → List ℕ → Text → Option Text
  select_preferred rows tier allowed preferred = elim (row_by_id rows preferred) [
    | none ↦ none
    | some row ↦
        if f.le nought (weighted_tier_score tier row)
          && plan_type_allowed row.plan_type_code allowed
        then some preferred
        else none
  ]

  abbrev pub id_of : Option (AvailableRow W) → Option Text
  id_of none = none
  id_of (some row) = some row.id

  -- `none` for ErrNoAvailableCredential.
  unfoldable pub select_credential :
      ℕ → AvailableSnapshot W → List ℕ → List ℕ → Text → Text → (ℕ → W) → Option Text
  select_credential best snap preferred_codes allowed_codes preferred tier random =
      let allowed = plan_type_code_set allowed_codes in
      if not (text_eq preferred [])
      then select_preferred snap.rows tier allowed preferred
      else id_of (preferred_loop best snap.rows tier allowed preferred_codes random 0)
