-- ===== src/Scheduling/QuotaSync.antt =====
-- core/scheduling/quota_syncer.go: which rows are due, in which order they are synced, and when the
-- syncer wakes up next. The callbacks of QuotaSyncer are a record; List, CacheRows and Sync are
-- effects whose results are arguments.
pub mod Delay
pub mod Due
pub mod Attempted
use meow_cli.Common.{
  ℕ, zero, suc, ◌+◌, ◌-◌, ◌*◌, Bool, true, false, List, [], ◌∷◌, ◌++◌, Option, none, some, arith,
  ltb, leb, ◌==◌, ◌&&◌, ◌||◌, not, take, if◌then◌else◌,
}
use meow_cli.Common.Text.{Text}
use meow_cli.Common.Table.{Table, lookup, insert}
use meow_cli.Scheduling.Times.{Time, second}

pub record Rows {ℓ} (T : Type ℓ) : Type ℓ where
  pub row_id : T → Text
  pub synced_at : T → Time
  pub reset_at : T → Time
  pub with_synced_at : T → Time → T

abbrev pub quota_reset_refresh_grace : ℕ
quota_reset_refresh_grace = 5 * second

abbrev pub quota_sync_due : Time → Time → ℕ → Bool
quota_sync_due synced_at now interval = synced_at == 0 || leb (synced_at + interval) now

abbrev pub quota_reset_refresh_due : Time → Time → Bool
quota_reset_refresh_due reset_at now =
    not (reset_at == 0) && leb (reset_at + quota_reset_refresh_grace) now

module _ {ℓ} {T : Type ℓ} (q : Rows T) where
  -- The variable `next` behind a row that is not due. A difference of instants is taken only where
  -- it is positive.
  unfoldable pub next_after : ℕ → Time → ℕ → T → ℕ
  next_after interval now next row =
      let delay = q.synced_at row + interval - now in
      let sooner = if ltb delay next then delay else next in
      let reset_delay = q.reset_at row + quota_reset_refresh_grace - now in
      if q.reset_at row == 0 then sooner else if ltb reset_delay sooner then reset_delay else sooner

  -- The loop of nextDelay.
  unfoldable pub next_delay_loop : ℕ → Time → ℕ → List T → ℕ
  unfolding next_after
  next_delay_loop interval now next [] = next
  next_delay_loop interval now next (row ∷ rows) =
      let rest = next_delay_loop interval now (next_after interval now next row) rows in
      if q.synced_at row == 0
      then 0
      else if leb (q.synced_at row + interval) now
      then 0
      else if q.reset_at row == 0
      then rest
      else if leb (q.reset_at row + quota_reset_refresh_grace) now
      then 0
      else rest

  unfoldable pub next_delay : List T → Time → ℕ → ℕ
  unfolding next_delay_loop
  next_delay rows now interval = next_delay_loop interval now interval rows

  -- The loop of prioritizedDueRows, with the two lists that it appends to.
  unfoldable pub due_loop : Time → ℕ → List T → List T → List T → List T
  due_loop now interval [] reset_due interval_due = reset_due ++ interval_due
  due_loop now interval (row ∷ rows) reset_due interval_due =
      due_loop now interval rows
        (if quota_reset_refresh_due (q.reset_at row) now
          then reset_due ++ (row ∷ [])
          else reset_due)
        (if quota_reset_refresh_due (q.reset_at row) now
          then interval_due
          else if quota_sync_due (q.synced_at row) now interval
          then interval_due ++ (row ∷ [])
          else interval_due)

  unfoldable pub prioritized_due_rows : List T → Time → ℕ → List T
  unfolding due_loop
  prioritized_due_rows rows now interval = due_loop now interval rows [] []

  mark_attempted : Time → List T → Table Time → Table Time
  unfolding insert
  mark_attempted now [] attempted = attempted
  mark_attempted now (row ∷ rows) attempted =
      mark_attempted now rows (insert (q.row_id row) now attempted)

  with_attempted_row : Table Time → T → T
  unfolding lookup
  with_attempted_row attempted row = elim (lookup (q.row_id row) attempted) [
    | none ↦ row
    | some at ↦ if ltb (q.synced_at row) at then q.with_synced_at row at else row
  ]

  unfoldable pub with_attempted_sync_times : List T → Table Time → List T
  unfolding with_attempted_row
  with_attempted_sync_times [] attempted = []
  with_attempted_sync_times (row ∷ rows) attempted =
      with_attempted_row attempted row ∷ with_attempted_sync_times rows attempted

  abbrev refreshed_or : Option (List T) → List T → List T
  refreshed_or none rows = rows
  refreshed_or (some fresh) rows = fresh

  -- The two options are what the two calls of List return, none for an error (or, the second, for a
  -- nil list), and `started` is the number of due rows whose sync began before the context was done.
  -- The result is the rows that the next delay is computed from, and the rows that were synced, in
  -- the order of their start.
  unfoldable pub sync_due_rows : Option (List T) → Time → ℕ → ℕ → Option (List T) → List T × List T
  unfolding prioritized_due_rows mark_attempted with_attempted_sync_times
  sync_due_rows none now interval started refreshed = ([], [])
  sync_due_rows (some rows) now interval started refreshed =
      let begun = take started (prioritized_due_rows rows now interval) in
      let attempted = mark_attempted now begun [] in
      (with_attempted_sync_times (refreshed_or refreshed rows) attempted, begun)
