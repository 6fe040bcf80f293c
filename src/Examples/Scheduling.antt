-- ===== src/Examples/Scheduling.antt =====
-- core/scheduling: its theorems at concrete inputs.
use meow_cli.Common.{
  ℕ, suc, ◌+◌, ◌-◌, ◌*◌, ◌≤◌, ◌<◌, ◌≡◌, ◌≢◌, ◌⊎◌, inl, inr, ◌↔◌, refl, true, List, [], ◌∷◌, Option,
  some, arith, map, In, length, All,
}
use meow_cli.Common.Text.{Text, bytes}
use meow_cli.Float.Fixed.{Fixed, fixed_float, Fixed-IsFloat, pos}
use meow_cli.Scheduling.Times.{Time, second, minute}
use meow_cli.Scheduling.Backoff.{calc_backoff, decide_failure_throttle}
use meow_cli.Scheduling.Backoff.Bounds.{
  Capped, doubled, HasRetryAfter, calc_backoff-Capped, calc_backoff_over_cap,
  decide_failure_throttle-backoff,
}
use meow_cli.Scheduling.Best.{candidate_for, insert_best_candidate, pick_weighted_from_best}
use meow_cli.Scheduling.Best.Pick.{pool_of}
use meow_cli.Scheduling.Best.Top.{pick-top}
use meow_cli.Scheduling.QuotaSync.{Rows, next_delay, prioritized_due_rows, sync_due_rows}
use meow_cli.Scheduling.QuotaSync.Delay.{next_delay_iff, next_delay_quiet}
use meow_cli.Scheduling.QuotaSync.Attempted.{IsRows, synced_rows_wait, IsQuiet, past_reset_spins}
use meow_cli.Scheduling.Refresh.{
  Cell, store, store_all, compare_and_swap, update_loop, update, interference,
}
use meow_cli.Scheduling.Refresh.Linear.{update_loop-update}

-- Another goroutine stores 7 between the first load and its compare-and-swap.
abbrev published : Cell ℕ
published = record { stores = 1; value = some 5 }

abbrev increment : ℕ → Option ℕ
increment n = some (n + 1)

abbrev contended : List (List ℕ)
contended = (7 ∷ []) ∷ [] ∷ []

update_loop-update_example :
    update_loop increment published contended
    ≡ update increment (store_all published (interference increment published contended))
update_loop-update_example = update_loop-update increment published contended

contended_run :
    update_loop increment published contended ≡ (record { stores = 3; value = some 8 }, true)
unfolding update_loop store_all store compare_and_swap
contended_run = refl

abbrev row_list : List ℕ → List ℕ
row_list rows = rows

abbrev listed : Cell (List ℕ)
listed = record { stores = 0; value = some (1 ∷ 2 ∷ []) }

abbrev other_store : List (List (List ℕ))
other_store = ((3 ∷ []) ∷ []) ∷ [] ∷ []

abbrev rebuild : List ℕ → Option (List ℕ)
rebuild rows = some (row_list (map suc (row_list rows)))

listed_then : (store_all listed (interference rebuild listed other_store)).value ≡ some (3 ∷ [])
unfolding store_all store interference
listed_then = refl

abbrev scores : ℕ → Fixed
scores n = pos (n * 1_000_000)

abbrev items : List ℕ
items = 3 ∷ 0 ∷ 9 ∷ 4 ∷ []

scores_are_numbers : (n : ℕ) → fixed_float.le (scores n) (scores n) ≡ true
scores_are_numbers n = ground arith

picked : pick_weighted_from_best items 2 scores (pos 500_000) ≡ some 9
unfolding pick_weighted_from_best insert_best_candidate
picked = refl

pick-top_example :
    In (candidate_for scores 3) (pool_of items 2 scores)
    ⊎ ((2 ≤ length (pool_of items 2 scores)) × (fixed_float.le (scores 3) (scores 9) ≡ true))
pick-top_example =
    pick-top Fixed-IsFloat items 2 scores (pos 500_000) 9 3 (omega arith) scores_are_numbers picked
      (inl refl) refl

fifth_throttles : (decide_failure_throttle 500 0 5 (2 * second) minute).throttle ≡ true
unfolding decide_failure_throttle
fifth_throttles = refl

decide_failure_throttle-backoff_example :
    let d = decide_failure_throttle 500 0 5 (2 * second) minute in
    (HasRetryAfter 500 0 × (d.backoff ≡ 0))
    ⊎ ((¬ HasRetryAfter 500 0) × (3 ≤ 5) × Capped minute (doubled (5 - 3) (2 * second)) d.backoff)
decide_failure_throttle-backoff_example =
    decide_failure_throttle-backoff 500 0 5 (2 * second) minute (omega arith) (omega arith)
      (omega arith) fifth_throttles

calc_backoff-Capped_example :
    Capped minute (doubled (9 - 1) (2 * second)) (calc_backoff 9 (2 * second) minute)
calc_backoff-Capped_example =
    calc_backoff-Capped 9 (2 * second) minute (omega arith) (omega arith) (omega arith)

calc_backoff_over_cap_example :
    (calc_backoff 1 (2 * minute) minute ≡ 2 * minute)
    × (calc_backoff (2 + 0) (2 * minute) minute ≡ minute)
calc_backoff_over_cap_example =
    calc_backoff_over_cap 0 (2 * minute) minute (omega arith) (omega arith) (omega arith)

abbrev codes : List ℕ
codes = 1 ∷ 3 ∷ []

abbrev groups : List (List ℕ)
groups = (1 ∷ 3 ∷ []) ∷ (3 ∷ 2 ∷ 1 ∷ []) ∷ []

abbrev times : List Time
times = 0 ∷ 30 ∷ 10 ∷ 20 ∷ []

-- A row with its credential, the time of its last sync and the reset time of its quota.
record QuotaRow : Type 0 where
  credential : Text
  synced : Time
  reset : Time

abbrev quota_rows : Rows QuotaRow
quota_rows = record {
  row_id = λ r. r.credential;
  synced_at = λ r. r.synced;
  reset_at = λ r. r.reset;
  with_synced_at = λ r t. record r { synced = t };
}

quota_rows-IsRows : IsRows quota_rows
quota_rows-IsRows = record {
  synced_at_set = λ r t. refl;
  row_id_kept = λ r t. refl;
  reset_at_kept = λ r t. refl;
}

abbrev quota_row : Text → Time → Time → QuotaRow
quota_row id synced reset = record { credential = id; synced = synced; reset = reset }

abbrev quiet_rows : List QuotaRow
quiet_rows =
    quota_row (bytes "a") (90 * minute) 0 ∷ quota_row (bytes "b") (80 * minute) (120 * minute) ∷ []

quiet_now : prioritized_due_rows quota_rows quiet_rows (95 * minute) (30 * minute) ≡ []
unfolding prioritized_due_rows
quiet_now = refl

next_delay_quiet_example :
    prioritized_due_rows quota_rows quiet_rows (109 * minute) (30 * minute) ≡ []
next_delay_quiet_example =
    next_delay_quiet quota_rows quiet_rows (95 * minute) (109 * minute) (30 * minute) (omega arith)
      quiet_now not_yet
  where
    not_yet :
        109 * minute < 95 * minute + next_delay quota_rows quiet_rows (95 * minute) (30 * minute)
    not_yet = unfold next_delay in omega arith

next_delay_iff_example :
    let d = next_delay quota_rows quiet_rows (95 * minute) (30 * minute) in
    ((d ≡ 0) ↔ (prioritized_due_rows quota_rows quiet_rows (95 * minute) (30 * minute) ≢ []))
    × (d ≤ 30 * minute)
next_delay_iff_example =
    next_delay_iff quota_rows quiet_rows (95 * minute) (30 * minute) (omega arith)

abbrev late_row : QuotaRow
late_row = quota_row (bytes "b") (80 * minute) (90 * minute)

abbrev late_rows : List QuotaRow
late_rows = quota_row (bytes "a") (90 * minute) 0 ∷ late_row ∷ []

-- The sync moved the reset time.
abbrev moved_row : QuotaRow
moved_row = quota_row (bytes "b") (80 * minute) (200 * minute)

synced_late :
    In late_row
      (sync_due_rows quota_rows
        (some late_rows)
        (95 * minute)
        (30 * minute)
        1
        (some (moved_row ∷ []))).1
unfolding sync_due_rows prioritized_due_rows
synced_late = inl refl

abbrev synced_rows : List QuotaRow
synced_rows =
    (sync_due_rows quota_rows (some late_rows) (95 * minute) (30 * minute) 1
      (some (moved_row ∷ []))).0

synced_rows_wait_example :
    (map quota_rows.row_id synced_rows ≡ map quota_rows.row_id (moved_row ∷ []))
    × (map quota_rows.reset_at synced_rows ≡ map quota_rows.reset_at (moved_row ∷ []))
    × All
        (IsQuiet quota_rows quota_rows-IsRows (bytes "b") (30 * minute) (100 * minute))
        synced_rows
synced_rows_wait_example =
    synced_rows_wait quota_rows quota_rows-IsRows late_rows (moved_row ∷ []) (95 * minute)
      (100 * minute) (30 * minute) 1 late_row (omega arith) (omega arith) synced_late

past_reset_spins_example :
    next_delay quota_rows
      (sync_due_rows quota_rows (some late_rows) (95 * minute) (30 * minute) 1 (some late_rows)).0
      (96 * minute)
      (30 * minute)
    ≡ 0
past_reset_spins_example =
    past_reset_spins quota_rows quota_rows-IsRows late_rows late_rows (95 * minute) (96 * minute)
      (30 * minute) 1 late_row (inr (inl refl)) refl
