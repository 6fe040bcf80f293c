-- ===== src/Logs/Store.antt =====
-- internal/logs/store.go: inserting, pruning, trimming, compacting and clearing. The rows from `head`
-- on are the retained ones. `retention` and the row limit are the settings at the time of the call.
pub mod Retention
pub mod Invariant
use meow_cli.Common.{
  ℕ, suc, ◌+◌, ◌-◌, ◌*◌, Bool, true, false, List, [], ◌∷◌, ◌++◌, ltb, leb, ◌==◌, ◌&&◌, ◌||◌, length,
  drop, keep, not, if◌then◌else◌, count_of,
}
use meow_cli.Common.Text.{Text, text_eq, bytes}
use meow_cli.Scheduling.Times.{Time}
use meow_cli.Logs.Rows.{LogRow, InsertLogParams, log_json_error}

pub record Store (W : Type 0) : Type 0 where
  pub rows : List (LogRow W)
  pub head : ℕ

-- The settings that the store reads.
pub record Limits : Type 0 where
  pub retention : ℕ
  pub max_log_rows : ℕ

abbrev default_max_log_rows : ℕ
default_max_log_rows = 100_000

unfoldable pub max_rows : Limits → ℕ
max_rows limits = if limits.max_log_rows == 0 then default_max_log_rows else limits.max_log_rows

module _ {W : Type 0} where
  abbrev pub empty : Store W
  empty = record { rows = []; head = 0 }

  -- `!CreatedAt.After(now.Add(-retention))`.
  abbrev pub is_expired : Time → ℕ → LogRow W → Bool
  is_expired now retention row = leb (row.created_at + retention) now

  -- How far the loop of pruneLocked moves the head over the rows in front of it.
  unfoldable pub expired_count : Time → ℕ → List (LogRow W) → ℕ
  expired_count now retention [] = 0
  expired_count now retention (row ∷ rows) =
      if is_expired now retention row then suc (expired_count now retention rows) else 0

  unfoldable pub prune_locked : Time → Limits → Store W → Store W
  unfolding expired_count
  prune_locked now limits s =
      if leb (length s.rows) s.head
      then empty
      else if limits.retention == 0
      then empty
      else record s { head = s.head + expired_count now limits.retention (drop s.head s.rows) }

  unfoldable pub trim_locked : Limits → Store W → Store W
  unfolding max_rows
  trim_locked limits s =
      let visible = length s.rows - s.head in
      if leb visible (max_rows limits)
      then s
      else record s { head = s.head + (visible - max_rows limits) }

  unfoldable pub compact_locked : Store W → Store W
  compact_locked s =
      if s.head == 0
      then s
      else if leb (length s.rows) s.head
      then empty
      else if ltb s.head 1024 && ltb (s.head * 2) (length s.rows)
      then s
      else record { rows = drop s.head s.rows; head = 0 }

  unfoldable pub log_row : (Text → Bool) → Time → InsertLogParams W → LogRow W
  unfolding log_json_error
  log_row json_valid now arg = record {
    handler = arg.handler;
    credential_id = arg.credential_id;
    status_code = arg.status_code;
    model_tier = arg.model_tier;
    model = arg.model;
    api_type = arg.api_type;
    stream = arg.stream;
    first_byte = arg.first_byte;
    duration = arg.duration;
    error = log_json_error json_valid arg.error;
    created_at = now;
  }

  abbrev pub append_row : LogRow W → Store W → Store W
  append_row row s = record s { rows = s.rows ++ (row ∷ []) }

  -- The second part is false where the context was done, and then nothing is stored.
  unfoldable pub insert_log :
      (Text → Bool) → Bool → Limits → Time → InsertLogParams W → Store W → Store W × Bool
  insert_log json_valid ctx_done limits now arg s = if ctx_done then (s, false) else (
    compact_locked
        (trim_locked limits (append_row (log_row json_valid now arg) (prune_locked now limits s))),
    true,
  )

  first_expired : Time → ℕ → List (LogRow W) → Bool
  first_expired now retention [] = false
  first_expired now retention (row ∷ rows) = is_expired now retention row

  unfoldable pub needs_prune : Time → Limits → Store W → Bool
  unfolding first_expired
  needs_prune now limits s =
      if leb (length s.rows) s.head
      then false
      else if limits.retention == 0
      then true
      else first_expired now limits.retention (drop s.head s.rows)

  unfoldable pub snapshot_rows : Time → Limits → Store W → Store W × List (LogRow W)
  snapshot_rows now limits s =
      let pruned =
        if needs_prune now limits s
        then compact_locked (trim_locked limits (prune_locked now limits s))
        else s in
      (pruned, drop pruned.head pruned.rows)

  abbrev pub is_cleared : Text → LogRow W → Bool
  is_cleared handler row = text_eq handler (bytes "all") || text_eq row.handler handler

  -- The second part is the number of deleted rows.
  unfoldable pub clear_logs : Bool → Text → Store W → Store W × ℕ
  clear_logs ctx_done handler s = if ctx_done then (s, 0) else (
    record { rows = keep (λ row. not (is_cleared handler row)) (drop s.head s.rows); head = 0 },
    count_of (is_cleared handler) (drop s.head s.rows),
  )
