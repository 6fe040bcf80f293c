-- ===== src/Logs/Query.antt =====
-- internal/logs/store.go: QueryLogs, its filter and its statistics. Counters of type int64 do not
-- overflow. A `map[int32]int64` is a tally, the list of its codes with their counts.
pub mod Page
pub mod Stats
use mathlib.Core.List.{reverse}
use meow_cli.Common.{
  ℕ, suc, ◌+◌, Bool, true, false, List, [], ◌∷◌, ◌++◌, ltb, leb, ◌==◌, ◌&&◌, ◌||◌, length, not, any,
  if◌then◌else◌,
}
use meow_cli.Common.Text.{Text, text_eq, bytes}
use meow_cli.Common.Strings.{trim_space, to_lower, contains, itoa}
use meow_cli.Scheduling.Times.{Time}
use meow_cli.Logs.Rows.{LogRow}
use meow_cli.Logs.Store.{Store, Limits, snapshot_rows}

pub record LogFilterParams : Type 0 where
  pub search : Text
  pub handler : Text
  pub status_code : ℕ
  pub has_status_code : Bool

pub record ListLogsParams : Type 0 where
  pub limit : ℕ
  pub offset : ℕ
  pub filter : LogFilterParams

abbrev pub Tally : Type 0
Tally = List (ℕ × ℕ)

-- counts[code]++
unfoldable pub bump : ℕ → Tally → Tally
bump code [] = (code, 1) ∷ []
bump code ((c, n) ∷ t) = if c == code then (c, suc n) ∷ t else (c, n) ∷ bump code t

insert_count : ℕ × ℕ → Tally → Tally
insert_count (code, n) [] = (code, n) ∷ []
insert_count (code, n) ((c, m) ∷ t) =
    if leb code c then (code, n) ∷ (c, m) ∷ t else (c, m) ∷ insert_count (code, n) t

-- The codes of a map are distinct, so every way to sort them gives this list.
unfoldable pub log_status_counts : Tally → Tally
unfolding insert_count
log_status_counts [] = []
log_status_counts (c ∷ t) = insert_count c (log_status_counts t)

pub record LogStats : Type 0 where
  pub total : ℕ
  pub status_codes : Tally

pub record LogQueryResult (W : Type 0) : Type 0 where
  pub rows : List (LogRow W)
  pub filtered_stats : LogStats
  pub total_stats : LogStats
  pub status_stats : LogStats

-- The variables of the loop of QueryLogs.
pub record Progress (W : Type 0) : Type 0 where
  pub page : List (LogRow W)
  pub skipped : ℕ
  pub total : ℕ
  pub filtered_total : ℕ
  pub status_total : ℕ
  pub total_counts : Tally
  pub filtered_counts : Tally
  pub status_counts : Tally

abbrev pub status_filter : LogFilterParams → LogFilterParams
status_filter filter = record filter { has_status_code = false }

abbrev no_stats : LogStats
no_stats = record { total = 0; status_codes = [] }

module _ {W : Type 0} where
  unfoldable pub matches_log_filter : LogFilterParams → LogRow W → Bool
  unfolding trim_space to_lower contains itoa text_eq
  matches_log_filter filter row =
      let handler = trim_space filter.handler in
      let query = to_lower (trim_space filter.search) in
      if not (text_eq handler [])
        && not (text_eq handler (bytes "all"))
        && not (text_eq row.handler handler)
      then false
      else if filter.has_status_code && not (row.status_code == filter.status_code)
      then false
      else if text_eq query []
      then true
      else any (λ value. contains (to_lower value) query)
          (row.handler
            ∷ row.credential_id
            ∷ row.model
            ∷ row.api_type
            ∷ row.error
            ∷ itoa row.status_code
            ∷ [])

  abbrev pub count_total : LogRow W → Progress W → Progress W
  count_total row p = record p {
    total = suc p.total;
    total_counts = bump row.status_code p.total_counts;
  }

  abbrev pub count_status : ListLogsParams → LogRow W → Progress W → Progress W
  count_status arg row p =
      if matches_log_filter (status_filter arg.filter) row
      then record p {
        status_total = suc p.status_total;
        status_counts = bump row.status_code p.status_counts;
      }
      else p

  abbrev pub put_on_page : ListLogsParams → LogRow W → Progress W → Progress W
  put_on_page arg row p =
      if ltb p.skipped arg.offset
      then record p { skipped = suc p.skipped }
      else if ltb (length p.page) arg.limit
      then record p { page = p.page ++ (row ∷ []) }
      else p

  abbrev pub count_filtered : ListLogsParams → LogRow W → Progress W → Progress W
  count_filtered arg row p =
      if matches_log_filter arg.filter row
      then put_on_page arg row (record p {
        filtered_total = suc p.filtered_total;
        filtered_counts = bump row.status_code p.filtered_counts;
      })
      else p

  -- One round of the loop.
  unfoldable pub visit_row : ListLogsParams → LogRow W → Progress W → Progress W
  visit_row arg row p = count_filtered arg row (count_status arg row (count_total row p))

  unfoldable pub query_loop : ListLogsParams → List (LogRow W) → Progress W → Progress W
  unfolding visit_row
  query_loop arg [] p = p
  query_loop arg (row ∷ rows) p = query_loop arg rows (visit_row arg row p)

  abbrev pub no_progress : Progress W
  no_progress = record {
    page = [];
    skipped = 0;
    total = 0;
    filtered_total = 0;
    status_total = 0;
    total_counts = [];
    filtered_counts = [];
    status_counts = [];
  }

  abbrev pub empty_log_query_result : LogQueryResult W
  empty_log_query_result = record {
    rows = [];
    filtered_stats = no_stats;
    total_stats = no_stats;
    status_stats = no_stats;
  }

  unfoldable pub query_result : Progress W → LogQueryResult W
  unfolding log_status_counts
  query_result p = record {
    rows = p.page;
    filtered_stats = record {
      total = p.filtered_total;
      status_codes = log_status_counts p.filtered_counts;
    };
    total_stats = record { total = p.total; status_codes = log_status_counts p.total_counts };
    status_stats = record {
      total = p.status_total;
      status_codes = log_status_counts p.status_counts;
    };
  }

  -- The second part is false where the context was done. A limit of 0 stands for one not positive.
  unfoldable pub query_logs :
      Bool → Time → Limits → ListLogsParams → Store W → (Store W × LogQueryResult W) × Bool
  query_logs ctx_done now limits arg s =
      if ctx_done
      then ((s, empty_log_query_result), false)
      else if arg.limit == 0
      then ((s, empty_log_query_result), true)
      else let (s', rows) = snapshot_rows now limits s in
        ((s', query_result (query_loop arg (reverse rows) no_progress)), true)
