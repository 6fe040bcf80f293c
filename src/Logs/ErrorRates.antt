-- ===== src/Logs/ErrorRates.antt =====
-- internal/logs/store.go: ErrorRatesForCredentials. The counters of a credential are a pair: how many
-- of its rows count, and how many of those are errors.
pub mod Complete
use mathlib.Core.List.{reverse}
use meow_cli.Common.{
  ℕ, suc, Bool, true, false, List, [], ◌∷◌, Option, none, some, ltb, leb, ◌==◌, ◌&&◌, ◌||◌, not,
  if◌then◌else◌,
}
use meow_cli.Common.Text.{Text, text_eq, bytes}
use meow_cli.Common.Table.{Table, lookup, insert}
use meow_cli.Scheduling.Times.{Time}
use meow_cli.Float.{Float}
use meow_cli.Logs.Rows.{LogRow}
use meow_cli.Logs.Store.{Store, Limits, snapshot_rows}

pub record ErrorRateSince : Type 0 where
  pub credential_id : Text
  pub since : Time

-- `statusCode >= 400 || statusCode == 0`
abbrev pub is_log_error : ℕ → Bool
is_log_error status = leb 400 status || status == 0

-- One item of `since`, over sinceByID and oldestSince.
unfoldable pub since_step : ErrorRateSince → Table Time → Time → Table Time × Time
since_step item by_id oldest = if text_eq item.credential_id [] then (by_id, oldest) else (
  insert item.credential_id item.since by_id,
  if item.since == 0
      then 0
      else if oldest == 0 || ltb item.since oldest
      then item.since
      else oldest,
)

unfoldable pub since_loop : List ErrorRateSince → Table Time × Time → Table Time × Time
since_loop [] acc = acc
since_loop (item ∷ items) acc = since_loop items (since_step item acc.0 acc.1)

abbrev pub counters_of : Text → Table (ℕ × ℕ) → ℕ × ℕ
counters_of id counts = elim (lookup id counts) [ none ↦ (0, 0) | some c ↦ c ]

module _ {W : Type 0} where
  -- The row is of the handler and, where a tier is given, of that tier; no tier counts as default.
  unfoldable pub is_of_tier : Text → Text → LogRow W → Bool
  unfolding text_eq
  is_of_tier handler tier row =
      text_eq row.handler handler
      && (text_eq tier []
          || text_eq row.model_tier tier
          || (text_eq tier (bytes "default") && text_eq row.model_tier []))

  -- The row is of a listed credential, and younger than its since.
  unfoldable pub is_since : Table Time → LogRow W → Bool
  is_since by_id row = elim (lookup row.credential_id by_id) [
    | none ↦ false
    | some since ↦ since == 0 || ltb since row.created_at
  ]

  unfoldable pub count_row : LogRow W → Table (ℕ × ℕ) → Table (ℕ × ℕ)
  count_row row counts =
      let c = counters_of row.credential_id counts in
      insert row.credential_id (suc c.0, if is_log_error row.status_code then suc c.1 else c.1)
        counts

  -- The loop over the rows, newest first; it breaks at the first row that is not younger than the
  -- oldest since.
  unfoldable pub count_loop :
      Text → Text → Table Time → Time → List (LogRow W) → Table (ℕ × ℕ) → Table (ℕ × ℕ)
  count_loop handler tier by_id oldest [] counts = counts
  count_loop handler tier by_id oldest (row ∷ rows) counts =
      let next = count_loop handler tier by_id oldest rows (
        if is_of_tier handler tier row && is_since by_id row
        then count_row row counts
        else counts) in
      if not (oldest == 0) && not (ltb oldest row.created_at) then counts else next

  -- Behind the loop over `since`: nothing is counted for an empty table.
  unfoldable pub count_since :
      Time → Limits → Text → Text → Table Time → Time → Store W → Store W × Table (ℕ × ℕ)
  count_since now limits handler tier [] oldest s = (s, [])
  count_since now limits handler tier (entry ∷ rest) oldest s =
      let (s', rows) = snapshot_rows now limits s in
      (s', count_loop handler tier (entry ∷ rest) oldest (reverse rows) [])

  -- The counters that the rates are made from, with the pruned store.
  unfoldable pub count_errors :
      Time → Limits → Text → Text → List ErrorRateSince → Store W → Store W × Table (ℕ × ℕ)
  unfolding count_since
  count_errors now limits handler tier items s =
      let found = since_loop items ([], 0) in count_since now limits handler tier found.0 found.1 s

module _ {W : Type 0} ⦃f : Float W⦄ where
  rates_loop : ℕ → Table (ℕ × ℕ) → Table W
  rates_loop least [] = []
  rates_loop least ((id, (total, errors)) ∷ counts) =
      if leb least total
      then (id, f.quotient (f.of_int errors) (f.of_int total)) ∷ rates_loop least counts
      else rates_loop least counts

  -- `none` where the context was done. A number of samples of 0 stands for one that is not positive.
  unfoldable pub error_rates_for_credentials :
      Bool
      → Time
      → Limits
      → Text
      → Text
      → List ErrorRateSince
      → ℕ
      → Store W
      → Store W × Option (Table W)
  unfolding rates_loop count_errors
  error_rates_for_credentials ctx_done now limits handler tier items min_samples s =
      if ctx_done
      then (s, none)
      else let (s', counts) = count_errors now limits handler tier items s in
        (s', some (rates_loop (if min_samples == 0 then 1 else min_samples) counts))
