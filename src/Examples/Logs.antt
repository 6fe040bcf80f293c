-- ===== src/Examples/Logs.antt =====
-- internal/logs: its theorems at concrete inputs.
use mathlib.Core.List.{reverse}
use meow_cli.Common.{ℕ, ◌*◌, ◌≡◌, Bool, true, false, List, [], ◌∷◌, ◌++◌, arith, keep, take, drop}
use meow_cli.Common.Text.{Text, bytes}
use meow_cli.Scheduling.Times.{Time, minute}
use meow_cli.Logs.Rows.{LogRow, InsertLogParams}
use meow_cli.Logs.Store.{Store, Limits, max_rows, insert_log, log_row, snapshot_rows}
use meow_cli.Logs.Store.Retention.{visible, retained, last_rows, visible-insert_log}
use meow_cli.Logs.Store.Invariant.{IsStore, insert_log-IsStore}
use meow_cli.Logs.Query.{ListLogsParams, matches_log_filter, status_filter, query_logs}
use meow_cli.Logs.Query.Page.{query_logs-page}
use meow_cli.Logs.Query.Stats.{Counts, query_logs-Counts}
use meow_cli.Logs.ErrorRates.{ErrorRateSince, since_loop, counters_of, count_errors}
use meow_cli.Logs.ErrorRates.Complete.{tally_of, count_errors-tally}

-- The durations of the rows do not matter here: they are natural numbers.
abbrev entry : Text → ℕ → Time → LogRow ℕ
entry id status at = record {
  handler = bytes "codex";
  credential_id = id;
  status_code = status;
  model_tier = [];
  model = bytes "gpt";
  api_type = bytes "responses";
  stream = true;
  first_byte = 10;
  duration = 20;
  error = [];
  created_at = at;
}

abbrev params : InsertLogParams ℕ
params = record {
  handler = bytes "codex";
  credential_id = bytes "a";
  status_code = 429;
  model_tier = bytes "default";
  model = bytes "gpt";
  api_type = bytes "responses";
  stream = true;
  first_byte = 10;
  duration = 20;
  error = bytes "{}";
}

abbrev every_json : Text → Bool
every_json body = true

abbrev limits : Limits
limits = record { retention = 60 * minute; max_log_rows = 3 }

-- The first row is behind the head.
abbrev filled : Store ℕ
filled = record {
  rows =
      entry (bytes "a") 500 minute
      ∷ entry (bytes "a") 200 (20 * minute)
      ∷ entry (bytes "a") 500 (50 * minute)
      ∷ entry (bytes "b") 0 (70 * minute)
      ∷ [];
  head = 1;
}

filled-IsStore : IsStore (70 * minute) filled
filled-IsStore = record {
  ordered = ((omega arith, (omega arith, tt)), ((omega arith, tt), (tt, tt)));
  past = (omega arith, (omega arith, (omega arith, tt)));
}

visible-insert_log_example :
    visible (insert_log every_json false limits (85 * minute) params filled).0
    ≡ last_rows (max_rows limits) (
        retained (85 * minute) limits (visible filled)
        ++ (log_row every_json (85 * minute) params ∷ []))
visible-insert_log_example = visible-insert_log every_json limits (85 * minute) params filled

insert_log-IsStore_example :
    IsStore (85 * minute) (insert_log every_json false limits (85 * minute) params filled).0
insert_log-IsStore_example =
    insert_log-IsStore every_json limits (70 * minute) (85 * minute) params filled (omega arith)
      filled-IsStore

abbrev question : ListLogsParams
question = record {
  limit = 2;
  offset = 1;
  filter = record {
    search = bytes " GPT ";
    handler = bytes "codex";
    status_code = 500;
    has_status_code = false;
  };
}

query_logs-page_example :
    (query_logs false (75 * minute) limits question filled).0.1.rows
    ≡ take 2 (
        drop 1 (
          keep
            (matches_log_filter question.filter)
            (reverse (snapshot_rows (75 * minute) limits filled).1)))
query_logs-page_example = query_logs-page (75 * minute) limits question filled (omega arith)

query_logs-Counts_example :
    let r = (query_logs false (75 * minute) limits question filled).0.1 in
    let rows = reverse (snapshot_rows (75 * minute) limits filled).1 in
    Counts (λ _. true) rows r.total_stats
    × Counts (matches_log_filter question.filter) rows r.filtered_stats
    × Counts (matches_log_filter (status_filter question.filter)) rows r.status_stats
query_logs-Counts_example = query_logs-Counts (75 * minute) limits question filled (omega arith)

abbrev asked : List ErrorRateSince
asked =
    record { credential_id = bytes "a"; since = 30 * minute }
    ∷ record { credential_id = bytes "b"; since = 60 * minute }
    ∷ []

count_errors-tally_example :
    counters_of
      (bytes "a")
      (count_errors (75 * minute) limits (bytes "codex") (bytes "default") asked filled).1
    ≡ tally_of
        (bytes "codex")
        (bytes "default")
        (since_loop asked ([], 0)).0
        (bytes "a")
        (snapshot_rows (75 * minute) limits filled).1
count_errors-tally_example =
    count_errors-tally (75 * minute) limits (bytes "codex") (bytes "default") asked filled
      (bytes "a") (λ e. omega (arith, e), (λ e. omega (arith, e), tt)) filled-IsStore.ordered
