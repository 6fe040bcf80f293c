-- ===== src/Codex/Available/Checked.antt =====
-- core/codex/scheduler.go: the snapshot that is rebuilt from the database leaves out what is being
-- checked.
use mathlib.Core.Option.{some-injective}
use meow_cli.Common.{
  ℕ, ◌≡◌, ◌≢◌, ◌∙◌, inl, inr, sym, ap, subst, refl, Bool, true, false, List, [], ◌∷◌, Option, none,
  some, All, All-In, All-of_In, All-mono, map, ◌==◌, ◌||◌, arith, Bool-cases,
}
use meow_cli.Common.Text.{Text}
use meow_cli.Float.{Float, IsFloat}
use meow_cli.Scheduling.Times.{Time}
use meow_cli.Logs.Store.{Store}
use meow_cli.Codex.Rows.{AvailableRow, AvailableSnapshot, build_available_snapshot}
use meow_cli.Codex.Select.{select_credential}
use meow_cli.Codex.Pool.Barred.{not_selected}
use meow_cli.Codex.Weights.{Config}
use meow_cli.Codex.Throttle.{Setting, ThrottleState}
use meow_cli.Common.Table.{Table}
use meow_cli.Codex.Memory.{apply_memory_throttles, id-apply_memory_throttle}
use meow_cli.Codex.Quota.Unselected.{AddsNoRow}
use meow_cli.Codex.Unauthorized.{Guarded, is_credential_under_validation}
use meow_cli.Codex.Available.{
  AvailableCodexRow, available_row, unscored, scored_rows, rated, rate_rows, compute_error_rates,
  refresh_available_from_rows,
}

module _ {W : Type 0} ⦃f : Float W⦄ where
  -- No row has the id.
  abbrev IsAbsent : Text → List (AvailableRow W) → Type 0
  IsAbsent id = All λ r. r.id ≢ id

  IsAbsent-scored_rows :
      (config : Config) (now : Time) (s : Guarded W) (id : Text) (rows : List (AvailableCodexRow W))
      → is_credential_under_validation s id ≡ true
      → IsAbsent id (scored_rows config now s rows)
  unfolding scored_rows available_row unscored
  IsAbsent-scored_rows config now s id [] h = tt
  IsAbsent-scored_rows config now s id (r ∷ rows) h =
      let rest = IsAbsent-scored_rows config now s id rows h in
      elim (Bool-cases (r.synced_at == 0 || is_credential_under_validation s r.id)) [
        | inl e ↦ rw e rest
        | inr e ↦
            let other : r.id ≢ id = λ same. absurd (
              contrary (is_credential_under_validation s r.id) _ e
                (ap (is_credential_under_validation s) same ∙ h)) in
            rw e (other, rest)
      ]
    where
      contrary : (b c : Bool) → (c || b) ≡ false → b ≡ true → ⊥
      contrary b c e k = ground arith

  IsAbsent-apply_memory_throttles :
      (states : Table ThrottleState) (now : Time) (id : Text) (rows : List (AvailableRow W))
      → IsAbsent id rows
      → IsAbsent id (apply_memory_throttles states now rows)
  unfolding apply_memory_throttles
  IsAbsent-apply_memory_throttles states now id [] h = tt
  IsAbsent-apply_memory_throttles states now id (r ∷ rows) h = (
    λ same. h.0 (sym (id-apply_memory_throttle states now r) ∙ same),
    IsAbsent-apply_memory_throttles states now id rows h.1,
  )

  IsAbsent-map :
      (g : AvailableRow W → AvailableRow W) (id : Text) (rows : List (AvailableRow W))
      → ((r : AvailableRow W) → (g r).id ≡ r.id)
      → IsAbsent id rows
      → IsAbsent id (map g rows)
  IsAbsent-map g id [] k h = tt
  IsAbsent-map g id (r ∷ rows) k h = (λ same. h.0 (sym (k r) ∙ same), IsAbsent-map g id rows k h.1)

  IsAbsent-rate_rows :
      (id : Text) (rows : List (AvailableRow W)) (rates rates_spark : Option (Table W))
      → IsAbsent id rows
      → IsAbsent id (rate_rows rows rates rates_spark)
  unfolding rate_rows
  IsAbsent-rate_rows id rows none rates_spark h = h
  IsAbsent-rate_rows id rows (some rates) none h = h
  IsAbsent-rate_rows id rows (some rates) (some rates_spark) h =
      IsAbsent-map (rated rates rates_spark) id rows (λ r. refl) h

  IsAbsent-compute_error_rates :
      (e : Setting W) (id : Text) (rows : List (AvailableRow W)) (logs : Store W)
      → IsAbsent id rows
      → IsAbsent id (compute_error_rates e rows logs).0
  unfolding compute_error_rates
  IsAbsent-compute_error_rates e id [] logs h = tt
  IsAbsent-compute_error_rates e id (row ∷ rows) logs h = IsAbsent-rate_rows id (row ∷ rows) _ _ h

  -- Under the laws of comparison, where sorting adds no row: a credential that is being checked is
  -- not selected for any tier from the snapshot that is rebuilt from the rows of the database.
  pub refresh_available_from_rows-unselected :
      (laws : IsFloat W) (e : Setting W) (db_rows : List (AvailableCodexRow W)) (s : Guarded W)
      (id : Text) (snap : AvailableSnapshot W) (best : ℕ) (preferred_codes allowed_codes : List ℕ)
      (preferred tier : Text) (random : ℕ → W)
      → AddsNoRow e.sort
      → is_credential_under_validation s id ≡ true
      → (refresh_available_from_rows e db_rows s).scheduler.available ≡ some snap
      → select_credential best snap preferred_codes allowed_codes preferred tier random ≢ some id
  unfolding refresh_available_from_rows build_available_snapshot
  refresh_available_from_rows-unselected laws e db_rows s id snap best preferred_codes allowed_codes
        preferred tier random less h q =
      let throttled =
        apply_memory_throttles s.scheduler.throttle e.now (scored_rows e.config e.now s db_rows) in
      let absent =
        IsAbsent-apply_memory_throttles s.scheduler.throttle e.now id
          (scored_rows e.config e.now s db_rows)
          (IsAbsent-scored_rows e.config e.now s id db_rows h) in
      let weighed = (compute_error_rates e throttled s.scheduler.logs).0 in
      let kept = IsAbsent-compute_error_rates e id throttled s.scheduler.logs absent in
      let sorted =
        All-of_In _ (e.sort weighed) (λ r m. All-In _ weighed r kept (less weighed r m)) in
      let there : IsAbsent id snap.rows =
        subst (λ (t : AvailableSnapshot W). IsAbsent id t.rows) (some-injective _ snap q) sorted in
      not_selected laws best snap preferred_codes allowed_codes preferred tier random id
        (All-mono _ _ snap.rows (λ r other. inl other) there)
