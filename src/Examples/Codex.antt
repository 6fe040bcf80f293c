-- ===== src/Examples/Codex.antt =====
-- core/codex: its theorems at concrete inputs.
use mathlib.Core.Bool.{true≢false}
use meow_cli.Common.{
  ℕ, ◌+◌, ◌*◌, ◌≡◌, ◌≢◌, ◌⊎◌, inl, inr, ◌↔◌, refl, sym, true, false, List, [], ◌∷◌, none, some,
  arith, any, is_some, if◌then◌else◌,
}
use meow_cli.Common.Text.{Text, text_eq, text_eq_iff, bytes}
use meow_cli.Common.Table.{lookup}
use meow_cli.Float.Fixed.{Fixed, fixed_float, Fixed-IsFloat, pos}
use meow_cli.Scheduling.Times.{Time, second, minute}
use meow_cli.Scheduling.Best.{pick_weighted_from_best, insert_best_candidate}
use meow_cli.Scheduling.Plans.{plan_type_allowed, plan_type_code_set}
use meow_cli.Logs.Rows.{LogRequestMetrics}
use meow_cli.Codex.Tiers.{model_tier_default, model_tier_spark, throttle_state_key}
use meow_cli.Codex.PlanTypes.{codes_for, plan_code}
use meow_cli.Codex.PlanTypes.Named.{codes_for_iff, names_known, names_same}
use meow_cli.Codex.Rows.{AvailableRow, AvailableSnapshot, weighted_tier_score}
use meow_cli.Codex.Select.{select_credential, preferred_loop, select_weighted_credential}
use meow_cli.Codex.Select.Selected.{
  IsSelectable, select_credential-IsSelectable, select_credential_some,
}
use meow_cli.Codex.Pool.{
  throttle_credential_tier, suspend_credential_tier, evict_credential, change_snapshot,
  throttle_row, suspend_row, without_id,
}
use meow_cli.Codex.Rows.{build_available_snapshot}
use meow_cli.Codex.Pool.Barred.{HasDistinctIds, IsBarred, throttle_credential_tier-unselected}
use meow_cli.Codex.Weights.{Config}
use meow_cli.Codex.Memory.{apply_memory_throttles, apply_memory_throttles-IsBarred}
use meow_cli.Codex.Refreshing.{
  Refreshing, start_quota_refresh, complete_quota_refresh, start_quota_refresh-once,
}
use meow_cli.Codex.Throttle.{
  Scheduler, Setting, ThrottleState, active_throttle_until, record_failure,
}
use meow_cli.Codex.Throttle.Streak.{three_failures_throttle}
use meow_cli.Codex.Throttle.Counted.{record_failure-IsCounted, IsCounted, IsDeadline}

abbrev ones : ℕ → Fixed
ones n = pos (n * 1_000_000)

abbrev credential : Text → ℕ → ℕ → AvailableRow Fixed
credential id plan score = record {
  id = id;
  plan_type_code = plan;
  quota_5h = ones 1;
  quota_7d = ones 1;
  quota_1mo = ones 1;
  quota_spark_5h = ones 1;
  quota_spark_7d = ones 1;
  quota_spark_1mo = ones 1;
  reset_5h = 0;
  reset_7d = 0;
  reset_1mo = 0;
  reset_spark_5h = 0;
  reset_spark_7d = 0;
  reset_spark_1mo = 0;
  throttled_until = 0;
  throttled_until_spark = 0;
  score = ones score;
  score_spark = ones score;
  weight = ones 1;
  weight_spark = ones 1;
}

abbrev pub pool : AvailableSnapshot Fixed
pool = record {
  rows = credential (bytes "a") 1 3 ∷ credential (bytes "b") 4 2 ∷ [];
  best_by_plan_type = (4, 1) ∷ (1, 0) ∷ [];
}

abbrev pub draws : ℕ → Fixed
draws n = pos 500_000

abbrev pro_only : List ℕ
pro_only = 4 ∷ []

abbrev pub nobody : Text
nobody = []

selected_b :
    select_credential 10 pool (1 ∷ []) pro_only nobody model_tier_default draws ≡ some (bytes "b")
unfolding select_credential preferred_loop select_weighted_credential pick_weighted_from_best
    plan_type_allowed plan_type_code_set weighted_tier_score insert_best_candidate
selected_b = refl

select_credential-IsSelectable_example :
    (row : AvailableRow Fixed) × IsSelectable pool.rows model_tier_default
      (plan_type_code_set pro_only)
      row
    × (row.id ≡ bytes "b")
    × ((nobody ≡ []) ⊎ (bytes "b" ≡ nobody))
select_credential-IsSelectable_example =
    select_credential-IsSelectable Fixed-IsFloat 10 pool (1 ∷ []) pro_only nobody model_tier_default
      draws (bytes "b") selected_b

pro_allowed : plan_type_allowed 4 (plan_type_code_set pro_only) ≡ true
unfolding plan_type_allowed plan_type_code_set
pro_allowed = refl

b_scores :
    fixed_float.le (weighted_tier_score model_tier_default (credential (bytes "b") 4 2)) (pos 0)
    ≡ false
unfolding weighted_tier_score
b_scores = refl

select_credential_some_example :
    is_some (select_credential 10 pool (1 ∷ []) pro_only [] model_tier_default draws) ≡ true
select_credential_some_example =
    select_credential_some 10 pool (1 ∷ []) pro_only model_tier_default draws
      (credential (bytes "b") 4 2) (omega arith) (inr (inl refl), pro_allowed, b_scores)

b_is_not_a : bytes "b" ≢ bytes "a"
unfolding text_eq
b_is_not_a e = true≢false (sym ((text_eq_iff (bytes "b") (bytes "a")).1 e))

pool-HasDistinctIds : HasDistinctIds pool.rows
pool-HasDistinctIds = ((b_is_not_a, tt), (tt, tt))

abbrev pub throttled : AvailableSnapshot Fixed
throttled = change_snapshot (bytes "a") (throttle_row model_tier_default minute) pool

pool_is_throttled :
    throttle_credential_tier (bytes "a") model_tier_default minute (some pool) ≡ some throttled
unfolding throttle_credential_tier
pool_is_throttled = refl

throttle_credential_tier-unselected_example :
    select_credential 10 throttled [] [] (bytes "a") model_tier_default draws ≢ some (bytes "a")
throttle_credential_tier-unselected_example =
    throttle_credential_tier-unselected Fixed-IsFloat 10 pool throttled [] [] (bytes "a")
      model_tier_default draws (bytes "a") minute (inr refl) pool-HasDistinctIds pool_is_throttled

abbrev pub suspended : AvailableSnapshot Fixed
suspended = change_snapshot (bytes "a") (suspend_row model_tier_spark) pool

pool_is_suspended :
    suspend_credential_tier (bytes "a") model_tier_spark (some pool) ≡ some suspended
unfolding suspend_credential_tier
pool_is_suspended = refl

abbrev pub evicted : AvailableSnapshot Fixed
evicted = build_available_snapshot (without_id (bytes "a") pool.rows)

pool_is_evicted : evict_credential (bytes "a") (some pool) ≡ some evicted
unfolding evict_credential
pool_is_evicted = refl

abbrev names : List Text
names = bytes "unknown" ∷ bytes "Pro" ∷ []

codes_for_iff_example :
    (plan_type_allowed (plan_code (bytes "pro")) (plan_type_code_set (codes_for names)) ≡ true) ↔ (
      (any names_known names ≡ false)
      ⊎ ((names_known (bytes "pro") ≡ true) × (any (names_same (bytes "pro")) names ≡ true)))
codes_for_iff_example = codes_for_iff names (bytes "pro")

abbrev pub config : Config
config = record {
  quota_window_5h_seconds = 18_000;
  quota_window_7d_seconds = 604_800;
  throttle_base = 60 * second;
  throttle_max = 1800 * second;
  limits = record { retention = 60 * minute; max_log_rows = 100 };
}

abbrev pub setting : Time → Setting Fixed
setting now = record {
  sort = λ rows. rows;
  json_valid = λ body. true;
  ctx_done = false;
  now = now;
  config = config;
}

abbrev pub metrics : LogRequestMetrics Fixed
metrics = record {
  model = bytes "gpt";
  api_type = bytes "responses";
  stream = true;
  first_byte = ones 1;
  duration = ones 2;
  error = [];
}

abbrev failed_once : ThrottleState
failed_once = record { consecutive = 1; last_fail = minute; until = 0 }

abbrev key_a : Text
key_a = throttle_state_key (bytes "a") model_tier_default

abbrev pub scheduler : Scheduler Fixed
scheduler = record {
  throttle = (key_a, failed_once) ∷ [];
  available = some pool;
  logs = record { rows = []; head = 0 };
}

one_of_a : lookup key_a scheduler.throttle ≡ some failed_once
unfolding lookup throttle_state_key text_eq
one_of_a = refl

record_failure-IsCounted_example :
    let e = setting (2 * minute) in
    let states =
      (record_failure e
        (bytes "a")
        429
        model_tier_default
        (5 * second)
        metrics
        scheduler).0.throttle in
    (new : ThrottleState) × ((lookup key_a states ≡ some new)
      × ((new.last_fail ≡ 2 * minute)
          × (IsCounted (2 * minute) failed_once new.consecutive
              × (IsDeadline
                    (2 * minute)
                    429
                    (5 * second)
                    (60 * second)
                    (1800 * second)
                    0
                    new.consecutive
                    new.until
                  × (lookup key_a states ≡ (
                      if text_eq key_a key_a
                      then some new
                      else lookup key_a scheduler.throttle))))))
record_failure-IsCounted_example =
    record_failure-IsCounted (setting (2 * minute)) (bytes "a") 429 model_tier_default (5 * second)
      metrics scheduler failed_once key_a (inl one_of_a)

nothing_of_b : lookup (throttle_state_key (bytes "b") model_tier_default) scheduler.throttle ≡ none
unfolding lookup throttle_state_key text_eq
nothing_of_b = refl

three_failures_throttle_example :
    let e1 = setting (1 * minute) in
    let e2 = setting (2 * minute) in
    let e3 = setting (3 * minute) in
    let key = throttle_state_key (bytes "b") model_tier_default in
    let s1 = (record_failure e1 (bytes "b") 500 model_tier_default 0 metrics scheduler).0 in
    let s2 = (record_failure e2 (bytes "b") 502 model_tier_default 0 metrics s1).0 in
    let s3 = (record_failure e3 (bytes "b") 500 model_tier_default 0 metrics s2).0 in
    (lookup key s1.throttle ≡ some (record { consecutive = 1; last_fail = 1 * minute; until = 0 }))
    × (lookup key s2.throttle
        ≡ some (record { consecutive = 2; last_fail = 2 * minute; until = 0 }))
    × (lookup key s3.throttle
        ≡ some
            (record { consecutive = 3; last_fail = 3 * minute; until = 3 * minute + 60 * second }))
three_failures_throttle_example =
    three_failures_throttle (setting (1 * minute)) (setting (2 * minute)) (setting (3 * minute))
      (bytes "b") 500 502 500 model_tier_default metrics scheduler nothing_of_b (omega arith)
      (omega arith)

abbrev later_throttle : ThrottleState
later_throttle = record { consecutive = 3; last_fail = minute; until = 9 * minute }

still_active :
    active_throttle_until ((key_a, later_throttle) ∷ []) (bytes "a") model_tier_default (2 * minute)
    ≢ 0
unfolding active_throttle_until lookup throttle_state_key text_eq
still_active e = ground arith

apply_memory_throttles-IsBarred_example :
    IsBarred
      (bytes "a")
      model_tier_default
      (apply_memory_throttles ((key_a, later_throttle) ∷ []) (2 * minute) pool.rows)
apply_memory_throttles-IsBarred_example =
    apply_memory_throttles-IsBarred Fixed-IsFloat ((key_a, later_throttle) ∷ []) (2 * minute)
      (bytes "a") model_tier_default pool.rows (inr refl) still_active

abbrev idle : Refreshing Fixed
idle = record { quota_refreshing = []; available = some pool }

refresh_starts : (start_quota_refresh (bytes "a") model_tier_default idle).1 ≡ true
unfolding start_quota_refresh lookup text_eq
refresh_starts = refl

start_quota_refresh-once_example :
    let started = (start_quota_refresh (bytes "a") model_tier_default idle).0 in
    ((start_quota_refresh (bytes "a") model_tier_default started).1 ≡ false)
    × ((start_quota_refresh
          (bytes "a")
          model_tier_default
          (complete_quota_refresh (bytes "a") model_tier_default started)).1
        ≡ true)
start_quota_refresh-once_example =
    start_quota_refresh-once (bytes "a") model_tier_default idle refresh_starts
