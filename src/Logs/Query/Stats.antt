-- ===== src/Logs/Query/Stats.antt =====
-- The statistics of a query count rows of the snapshot, one for each status code and in all.
use mathlib.Core.List.{reverse}
use meow_cli.Common.{
  ℕ, suc, ◌+◌, ◌<◌, ◌≡◌, ◌≢◌, ap, refl, Bool, true, false, List, [], ◌∷◌, arith, leb, ◌==◌, ◌&&◌,
  All, All-mono, Bool-cases, if◌then◌else◌, inl, inr, count_of,
}
use meow_cli.Logs.Rows.{LogRow}
use meow_cli.Scheduling.Times.{Time}
use meow_cli.Logs.Store.{Store, Limits, snapshot_rows}
use meow_cli.Logs.Query.{
  Tally, LogStats, bump, insert_count, log_status_counts, ListLogsParams, Progress,
  matches_log_filter, status_filter, visit_row, query_loop, query_result, query_logs, no_progress,
}

-- The count of a code.
abbrev pub count_in : ℕ → Tally → ℕ
count_in code [] = 0
count_in code ((c, n) ∷ t) = (if c == code then n else 0) + count_in code t

count_in-bump :
    (code c : ℕ) (t : Tally)
    → count_in code (bump c t) ≡ count_in code t + (if c == code then 1 else 0)
unfolding bump
count_in-bump code c [] = ground arith
count_in-bump code c ((d, n) ∷ t) = ground (arith, count_in-bump code c t)

count_in-insert_count :
    (code c n : ℕ) (t : Tally)
    → count_in code (insert_count (c, n) t) ≡ (if c == code then n else 0) + count_in code t
unfolding insert_count
count_in-insert_count code c n [] = ground arith
count_in-insert_count code c n ((d, m) ∷ t) = ground (arith, count_in-insert_count code c n t)

pub count_in-log_status_counts :
    (code : ℕ) (t : Tally) → count_in code (log_status_counts t) ≡ count_in code t
unfolding log_status_counts
count_in-log_status_counts code [] = refl
count_in-log_status_counts code ((c, n) ∷ t) =
    omega (
      arith,
      count_in-insert_count code c n (log_status_counts t),
      count_in-log_status_counts code t,
    )

-- The codes stand in ascending order, each of them once.
abbrev pub IsAscending : Tally → Type 0
IsAscending [] = Unit
IsAscending ((c, n) ∷ t) = All (λ e. c < e.0) t × IsAscending t

-- No entry has the code.
abbrev IsMissing : ℕ → Tally → Type 0
IsMissing code t = All (λ e. code ≢ e.0) t

-- No two entries have the same code.
abbrev IsDistinct : Tally → Type 0
IsDistinct [] = Unit
IsDistinct ((c, n) ∷ t) = IsMissing c t × IsDistinct t

IsMissing-bump : (code c : ℕ) (t : Tally) → code ≢ c → IsMissing code t → IsMissing code (bump c t)
unfolding bump
IsMissing-bump code c [] h k = (h, tt)
IsMissing-bump code c ((d, n) ∷ t) h k = elim (Bool-cases (d == c)) [
  | inl e ↦ rw (e, All) k
  | inr e ↦ rw (e, All) (k.0, IsMissing-bump code c t h k.1)
]

bump-IsDistinct : (c : ℕ) (t : Tally) → IsDistinct t → IsDistinct (bump c t)
unfolding bump
bump-IsDistinct c [] h = (tt, tt)
bump-IsDistinct c ((d, n) ∷ t) h = elim (Bool-cases (d == c)) [
  | inl e ↦ rw (e, IsDistinct) h
  | inr e ↦
      let other : d ≢ c = ground arith in
      rw (e, IsDistinct) (IsMissing-bump d c t other h.0, bump-IsDistinct c t h.1)
]

-- No entry counts nothing.
abbrev IsPositive : Tally → Type 0
IsPositive t = All (λ e. 0 < e.1) t

bump-IsPositive : (c : ℕ) (t : Tally) → IsPositive t → IsPositive (bump c t)
unfolding bump
bump-IsPositive c [] h = (omega arith, tt)
bump-IsPositive c ((d, n) ∷ t) h = elim (Bool-cases (d == c)) [
  | inl e ↦ rw (e, All) (omega arith, h.1)
  | inr e ↦ rw (e, All) (h.0, bump-IsPositive c t h.1)
]

-- The entries of a map of counters.
abbrev IsTally : Tally → Type 0
IsTally t = IsDistinct t × IsPositive t

bump-IsTally : (c : ℕ) (t : Tally) → IsTally t → IsTally (bump c t)
bump-IsTally c t h = (bump-IsDistinct c t h.0, bump-IsPositive c t h.1)

All-insert_count :
    (P : ℕ × ℕ → Type 0) (c n : ℕ) (t : Tally) → P (c, n) → All P t → All P (insert_count (c, n) t)
unfolding insert_count
All-insert_count P c n [] h k = (h, tt)
All-insert_count P c n ((d, m) ∷ t) h k = elim (Bool-cases (leb c d)) [
  | inl e ↦ rw (e, All) (h, k)
  | inr e ↦ rw (e, All) (k.0, All-insert_count P c n t h k.1)
]

All-log_status_counts : (P : ℕ × ℕ → Type 0) (t : Tally) → All P t → All P (log_status_counts t)
unfolding log_status_counts
All-log_status_counts P [] h = tt
All-log_status_counts P ((c, n) ∷ t) h =
    All-insert_count P c n (log_status_counts t) h.0 (All-log_status_counts P t h.1)

insert_count-IsAscending :
    (c n : ℕ) (t : Tally) → IsMissing c t → IsAscending t → IsAscending (insert_count (c, n) t)
unfolding insert_count
insert_count-IsAscending c n [] missing h = (tt, tt)
insert_count-IsAscending c n ((d, m) ∷ t) missing h = elim (Bool-cases (leb c d)) [
  | inl e ↦
      let below : c < d = ground arith in
      rw (e, IsAscending)
        ((below, All-mono (λ x. d < x.0) (λ x. c < x.0) t (λ x k. omega (arith, below, k)) h.0), h)
  | inr e ↦
      let above : d < c = ground arith in
      rw (e, IsAscending)
        (
          All-insert_count (λ x. d < x.0) c n t above h.0,
          insert_count-IsAscending c n t missing.1 h.1,
        )
]

log_status_counts-IsAscending : (t : Tally) → IsDistinct t → IsAscending (log_status_counts t)
unfolding log_status_counts
log_status_counts-IsAscending [] h = tt
log_status_counts-IsAscending ((c, n) ∷ t) h =
    insert_count-IsAscending c n (log_status_counts t) (All-log_status_counts (λ e. c ≢ e.0) t h.0)
      (log_status_counts-IsAscending t h.1)

module _ {W : Type 0} where
  abbrev pub has_status : ℕ → LogRow W → Bool
  has_status code row = row.status_code == code

  -- The statistics count the rows that pass the test, and for each code those of its status, in
  -- ascending order of the codes that occur.
  pub record Counts (test : LogRow W → Bool) (rows : List (LogRow W)) (stats : LogStats)
      : Type 0 where
    pub in_all : stats.total ≡ count_of test rows
    pub by_code :
        (code : ℕ)
        → count_in code stats.status_codes ≡ count_of (λ row. test row && has_status code row) rows
    pub ascending : IsAscending stats.status_codes
    pub positive : All (λ e. 0 < e.1) stats.status_codes

  -- The counters of the loop after some rows, for a test.
  abbrev Counted : (LogRow W → Bool) → List (LogRow W) → ℕ → Tally → ℕ → Tally → Type 0
  Counted test rows total counts total' counts' =
      (total' ≡ total + count_of test rows)
      × (IsTally counts → IsTally counts')
      × ((code : ℕ)
          → count_in code counts'
            ≡ count_in code counts + count_of (λ row. test row && has_status code row) rows)

  visit_row-total :
      (arg : ListLogsParams) (row : LogRow W) (p : Progress W)
      → ((visit_row arg row p).total ≡ suc p.total)
        × ((visit_row arg row p).total_counts ≡ bump row.status_code p.total_counts)
  unfolding visit_row
  visit_row-total arg row p = ground arith

  visit_row-filtered :
      (arg : ListLogsParams) (row : LogRow W) (p : Progress W)
      → let test = matches_log_filter arg.filter row in
        ((visit_row arg row p).filtered_total
          ≡ (if test then suc p.filtered_total else p.filtered_total))
        × ((visit_row arg row p).filtered_counts
            ≡ (if test then bump row.status_code p.filtered_counts else p.filtered_counts))
  unfolding visit_row
  visit_row-filtered arg row p = ground arith

  visit_row-status :
      (arg : ListLogsParams) (row : LogRow W) (p : Progress W)
      → let test = matches_log_filter (status_filter arg.filter) row in
        ((visit_row arg row p).status_total ≡ (if test then suc p.status_total else p.status_total))
        × ((visit_row arg row p).status_counts
            ≡ (if test then bump row.status_code p.status_counts else p.status_counts))
  unfolding visit_row
  visit_row-status arg row p = ground arith

  Counted-cons :
      (test : LogRow W → Bool) (row : LogRow W) (rows : List (LogRow W)) (total : ℕ)
      (counts : Tally) (mid_total : ℕ) (mid_counts : Tally) (new_total : ℕ) (new_counts : Tally)
      → mid_total ≡ (if test row then suc total else total)
      → mid_counts ≡ (if test row then bump row.status_code counts else counts)
      → Counted test rows mid_total mid_counts new_total new_counts
      → Counted test (row ∷ rows) total counts new_total new_counts
  Counted-cons test row rows total counts mid_total mid_counts new_total new_counts e f h =
      elim (Bool-cases (test row)) [
        | inl t ↦
            let more : mid_counts ≡ bump row.status_code counts = rw t at f in
            (
              ground (arith, h.0),
              λ d. h.1 (rw more (bump-IsTally row.status_code counts d)),
              λ code. rw t (
                  ground (
                    arith,
                    h.2 code,
                    ap (count_in code) more,
                    count_in-bump code row.status_code counts,
                  )),
            )
        | inr t ↦
            let same : mid_counts ≡ counts = rw t at f in
            (
              ground (arith, h.0),
              λ d. h.1 (rw same d),
              λ code. rw t (ground (arith, h.2 code, ap (count_in code) same)),
            )
      ]

  query_loop-Counted :
      (arg : ListLogsParams) (rows : List (LogRow W)) (p : Progress W)
      → let q = query_loop arg rows p in
        Counted (λ _. true) rows p.total p.total_counts q.total q.total_counts
        × Counted
            (matches_log_filter arg.filter)
            rows
            p.filtered_total
            p.filtered_counts
            q.filtered_total
            q.filtered_counts
        × Counted
            (matches_log_filter (status_filter arg.filter))
            rows
            p.status_total
            p.status_counts
            q.status_total
            q.status_counts
  unfolding query_loop
  query_loop-Counted arg [] p = (
    (omega arith, λ d. d, λ code. omega arith),
    (omega arith, λ d. d, λ code. omega arith),
    (omega arith, λ d. d, λ code. omega arith),
  )
  query_loop-Counted arg (row ∷ rows) p =
      let p' = visit_row arg row p in
      let (all, filtered, status) = query_loop-Counted arg rows p' in
      let q = query_loop arg rows p' in
      let t = visit_row-total arg row p in
      let f = visit_row-filtered arg row p in
      let u = visit_row-status arg row p in
      (
        Counted-cons (λ _. true) row rows p.total p.total_counts p'.total p'.total_counts q.total
            q.total_counts t.0 t.1 all,
        Counted-cons (matches_log_filter arg.filter) row rows p.filtered_total p.filtered_counts
            p'.filtered_total p'.filtered_counts q.filtered_total q.filtered_counts f.0 f.1
            filtered,
        Counted-cons (matches_log_filter (status_filter arg.filter)) row rows p.status_total
            p.status_counts p'.status_total p'.status_counts q.status_total q.status_counts u.0 u.1
            status,
      )

  Counts-of :
      (test : LogRow W → Bool) (rows : List (LogRow W)) (total : ℕ) (counts : Tally)
      → Counted test rows 0 [] total counts
      → Counts test rows (record { total = total; status_codes = log_status_counts counts })
  Counts-of test rows total counts h = record {
    in_all = omega (arith, h.0);
    by_code = λ code. omega (arith, h.2 code, count_in-log_status_counts code counts);
    ascending = log_status_counts-IsAscending counts (h.1 (tt, tt)).0;
    positive = All-log_status_counts (λ e. 0 < e.1) counts (h.1 (tt, tt)).1;
  }

  -- A query with a positive limit counts the rows of its snapshot three times, in all and by status
  -- code, each code that occurs once and in ascending order: all of them, those that match the
  -- filter, and those that match it with the status code left aside.
  pub query_logs-Counts :
      (now : Time) (limits : Limits) (arg : ListLogsParams) (s : Store W)
      → 0 < arg.limit
      → let r = (query_logs false now limits arg s).0.1 in
        let rows = reverse (snapshot_rows now limits s).1 in
        Counts (λ _. true) rows r.total_stats
        × Counts (matches_log_filter arg.filter) rows r.filtered_stats
        × Counts (matches_log_filter (status_filter arg.filter)) rows r.status_stats
  unfolding query_logs query_result
  query_logs-Counts now limits arg s h =
      let positive : (arg.limit == 0) ≡ false = ground arith in
      let rows = reverse (snapshot_rows now limits s).1 in
      let (all, filtered, status) = query_loop-Counted arg rows no_progress in
      rw positive (
        Counts-of (λ _. true) rows _ _ all,
        Counts-of (matches_log_filter arg.filter) rows _ _ filtered,
        Counts-of (matches_log_filter (status_filter arg.filter)) rows _ _ status,
      )
