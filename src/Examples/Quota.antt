-- ===== src/Examples/Quota.antt =====
-- core/codex/scheduler.go: the theorems on quota updates and rejected credentials at concrete inputs.
use meow_cli.Common.{
  ◌*◌, ◌≡◌, ◌≢◌, refl, inl, inr, true, false, [], ◌∷◌, Option, none, some, map, arith,
}
use meow_cli.Common.Text.{Text, bytes, text_eq}
use meow_cli.Float.Fixed.{Fixed, pos, Fixed-IsFloat, fixed_float}
use meow_cli.Scheduling.Times.{minute}
use meow_cli.Scheduling.Refresh.{Cell, compare_and_swap, store_all}
use meow_cli.Common.Table.{lookup}
use meow_cli.Codex.Pool.{change_snapshot, update_first, throttle_row, evict_credential}
use meow_cli.Codex.Tiers.{model_tier_default, model_tier_spark}
use meow_cli.Codex.Rows.{AvailableSnapshot, build_available_snapshot}
use meow_cli.Codex.Select.{select_credential}
use meow_cli.Codex.Quota.{Quota, rescore_row, refresh_available_scores, update_quota}
use meow_cli.Codex.Quota.Held.{update_quota-unselected}
use meow_cli.Codex.Unauthorized.{
  Wiring, Guarded, Verdict, is_credential_under_validation, handle_unauthorized,
  handle_unauthorized-unselected,
}
use meow_cli.Codex.Available.{AvailableCodexRow, refresh_available_from_rows}
use meow_cli.Codex.Available.Checked.{refresh_available_from_rows-unselected}
use meow_cli.Examples.Codex.{
  pool, setting, metrics, draws, nobody, scheduler, suspended, throttled, config, evicted,
}

abbrev cell : AvailableSnapshot Fixed → Cell (AvailableSnapshot Fixed)
cell snap = record { stores = 0; value = some snap }

abbrev rescored : AvailableSnapshot Fixed
rescored = build_available_snapshot (map (rescore_row config minute) suspended.rows)

-- Another goroutine stores the snapshot once more, so that the loop has two attempts.
scores_are_refreshed :
    (refresh_available_scores
      (λ rows. rows)
      config
      minute
      (cell suspended)
      ((suspended ∷ []) ∷ [])).0.value
    ≡ some rescored
unfolding refresh_available_scores compare_and_swap store_all
scores_are_refreshed = refl

-- A quota of the default tier alone.
abbrev fresh_quota : Quota Fixed
fresh_quota = record {
  has_default_quota = true;
  has_spark_quota = false;
  quota_5h = pos 1_000_000;
  quota_7d = pos 1_000_000;
  quota_1mo = pos 1_000_000;
  quota_spark_5h = pos 0;
  quota_spark_7d = pos 0;
  quota_spark_1mo = pos 0;
  reset_5h = 10 * minute;
  reset_7d = 10 * minute;
  reset_1mo = 0;
  reset_spark_5h = 0;
  reset_spark_7d = 0;
  reset_spark_1mo = 0;
}

abbrev updated : Cell (AvailableSnapshot Fixed)
updated = update_quota (λ rows. rows) config 0 (bytes "a") fresh_quota (cell throttled) ([] ∷ [])

abbrev snapshot_of : Option (AvailableSnapshot Fixed) → AvailableSnapshot Fixed
snapshot_of none = pool
snapshot_of (some snap) = snap

quota_is_updated : updated.value ≡ some (snapshot_of updated.value)
unfolding update_quota change_snapshot text_eq throttle_row build_available_snapshot
    compare_and_swap store_all
quota_is_updated = refl

update_quota-unselected_example :
    select_credential 10 (snapshot_of updated.value) [] [] nobody model_tier_default draws
    ≢ some (bytes "a")
unfolding change_snapshot update_first text_eq throttle_row build_available_snapshot
update_quota-unselected_example =
    update_quota-unselected Fixed-IsFloat config 0 (bytes "a") model_tier_default (λ rows. rows)
      (bytes "a") fresh_quota (cell throttled) ([] ∷ []) (snapshot_of updated.value) 10 [] [] nobody
      draws (λ rows r m. m) (inr (refl, refl), (inl (ground arith), tt)) (tt, tt) quota_is_updated

abbrev wiring : Wiring
wiring = record {
  json = record {
    strict_int64 = λ path body. none;
    strict_string = λ path body. none;
    string = λ path body. none;
  };
  has_verifier = false;
  has_manager = true;
}

abbrev guarded : Guarded Fixed
guarded = record { scheduler = scheduler; checking = [] }

abbrev rejected : Guarded Fixed × Verdict
rejected =
    handle_unauthorized (setting minute) wiring (bytes "a") 401 model_tier_default metrics guarded

rejection_is_taken_over : rejected.1 ≡ Verdict.validating
unfolding handle_unauthorized lookup
rejection_is_taken_over = refl

pool_without_a : rejected.0.scheduler.available ≡ some evicted
unfolding handle_unauthorized lookup evict_credential
pool_without_a = refl

handle_unauthorized-unselected_example :
    select_credential 10 evicted [] [] nobody model_tier_spark draws ≢ some (bytes "a")
handle_unauthorized-unselected_example =
    handle_unauthorized-unselected Fixed-IsFloat (setting minute) wiring (bytes "a") 401
      model_tier_default metrics guarded pool evicted 10 [] [] nobody model_tier_spark draws refl
      (rw rejection_is_taken_over) pool_without_a

abbrev stored : Text → AvailableCodexRow Fixed
stored id = record {
  id = id;
  plan_type = bytes "pro";
  quota = fresh_quota;
  throttled_until = 0;
  throttled_until_spark = 0;
  synced_at = minute;
}

abbrev under_check : Guarded Fixed
under_check = record { scheduler = scheduler; checking = (bytes "a", tt) ∷ [] }

abbrev refreshed : Guarded Fixed
refreshed =
    refresh_available_from_rows (setting minute) (stored (bytes "a") ∷ stored (bytes "b") ∷ [])
      under_check

abbrev rebuilt : Option (AvailableSnapshot Fixed)
rebuilt = refreshed.scheduler.available

snapshot_is_rebuilt : rebuilt ≡ some (snapshot_of rebuilt)
unfolding refresh_available_from_rows
snapshot_is_rebuilt = refl

refresh_available_from_rows-unselected_example :
    select_credential 10 (snapshot_of rebuilt) [] [] nobody model_tier_default draws
    ≢ some (bytes "a")
unfolding is_credential_under_validation lookup text_eq
refresh_available_from_rows-unselected_example =
    refresh_available_from_rows-unselected Fixed-IsFloat (setting minute)
      (stored (bytes "a") ∷ stored (bytes "b") ∷ []) under_check (bytes "a") (snapshot_of rebuilt)
      10 [] [] nobody model_tier_default draws (λ rows r m. m) refl snapshot_is_rebuilt
