-- ===== src/Logs/Query/Page.antt =====
-- The page of a query: a window into the matching rows, newest first.
use mathlib.Core.List.{reverse, append_assoc, append-nil}
use meow_cli.Common.{
  suc, ◌-◌, ◌<◌, ◌≡◌, ◌∙◌, sym, ap, true, false, List, [], ◌∷◌, ◌++◌, arith, ltb, ◌==◌, length,
  take, drop, take-nil, drop-nil, keep, Bool-cases, inl, inr, length-append,
}
use meow_cli.Logs.Rows.{LogRow}
use meow_cli.Scheduling.Times.{Time}
use meow_cli.Logs.Store.{Store, Limits, snapshot_rows}
use meow_cli.Logs.Query.{
  ListLogsParams, Progress, matches_log_filter, status_filter, visit_row, put_on_page, query_loop,
  query_result, query_logs, no_progress,
}

module _ {W : Type 0} where
  -- What a page that is filled so far will hold, given the matching rows to come.
  abbrev window : ListLogsParams → Progress W → List (LogRow W) → List (LogRow W)
  window arg p matching =
      p.page ++ take (arg.limit - length p.page) (drop (arg.offset - p.skipped) matching)

  put_on_page-window :
      (arg : ListLogsParams) (row : LogRow W) (rows : List (LogRow W)) (p : Progress W)
      → window arg (put_on_page arg row p) rows ≡ window arg p (row ∷ rows)
  put_on_page-window arg row rows p = elim (Bool-cases (ltb p.skipped arg.offset)) [
    | inl e ↦
        let more : arg.offset - p.skipped ≡ suc (arg.offset - suc p.skipped) = ground arith in
        simp (e, more)
    | inr e ↦
        let passed : arg.offset - p.skipped ≡ 0 = ground arith in
        elim (Bool-cases (ltb (length p.page) arg.limit)) [
          | inl k ↦
              let room : arg.limit - length p.page ≡ suc (arg.limit - suc (length p.page)) =
                ground arith in
              let longer : arg.limit - length (p.page ++ (row ∷ []))
                  ≡ arg.limit - suc (length p.page) =
                omega (arith, length-append p.page (row ∷ [])) in
              simp (e, k, passed, longer, room, append_assoc)
          | inr k ↦
              let full : arg.limit - length p.page ≡ 0 = ground arith in simp (e, k, passed, full)
        ]
  ]

  visit_row-match :
      (arg : ListLogsParams) (row : LogRow W) (rows : List (LogRow W)) (p : Progress W)
      → matches_log_filter arg.filter row ≡ true
      → window arg (visit_row arg row p) rows ≡ window arg p (row ∷ rows)
  unfolding visit_row
  visit_row-match arg row rows p e =
      elim (Bool-cases (matches_log_filter (status_filter arg.filter) row)) [
        | inl k ↦ rw (k, e) (put_on_page-window arg row rows _)
        | inr k ↦ rw (k, e) (put_on_page-window arg row rows _)
      ]

  visit_row-miss :
      (arg : ListLogsParams) (row : LogRow W) (rows : List (LogRow W)) (p : Progress W)
      → matches_log_filter arg.filter row ≡ false
      → window arg (visit_row arg row p) rows ≡ window arg p rows
  unfolding visit_row
  visit_row-miss arg row rows p e =
      elim (Bool-cases (matches_log_filter (status_filter arg.filter) row)) [
        | inl k ↦ rw (k, e)
        | inr k ↦ rw (k, e)
      ]

  query_loop-window :
      (arg : ListLogsParams) (rows : List (LogRow W)) (p : Progress W)
      → (query_loop arg rows p).page ≡ window arg p (keep (matches_log_filter arg.filter) rows)
  unfolding query_loop
  query_loop-window arg [] p =
      let nothing : take (arg.limit - length p.page)
            (drop {A = LogRow W} (arg.offset - p.skipped) [])
          ≡ [] =
        ap (take (arg.limit - length p.page)) (drop-nil (arg.offset - p.skipped))
        ∙ take-nil (arg.limit - length p.page) in
      sym (ap (λ rest. p.page ++ rest) nothing ∙ append-nil p.page)
  query_loop-window arg (row ∷ rows) p =
      let later = query_loop-window arg rows (visit_row arg row p) in
      let matching = keep (matches_log_filter arg.filter) rows in
      elim (Bool-cases (matches_log_filter arg.filter row)) [
        | inl e ↦ rw e (later ∙ visit_row-match arg row matching p e)
        | inr e ↦ rw e (later ∙ visit_row-miss arg row matching p e)
      ]

  -- A query with a positive limit answers with the rows of its snapshot that match the filter,
  -- newest first: those behind the first `offset` ones, up to `limit` of them.
  pub query_logs-page :
      (now : Time) (limits : Limits) (arg : ListLogsParams) (s : Store W)
      → 0 < arg.limit
      → (query_logs false now limits arg s).0.1.rows
        ≡ take arg.limit (
            drop arg.offset
              (keep (matches_log_filter arg.filter) (reverse (snapshot_rows now limits s).1)))
  unfolding query_logs query_result
  query_logs-page now limits arg s h =
      let positive : (arg.limit == 0) ≡ false = ground arith in
      let whole : arg.limit - 0 ≡ arg.limit = omega arith in
      let start : arg.offset - 0 ≡ arg.offset = omega arith in
      rw positive (
        query_loop-window arg (reverse (snapshot_rows now limits s).1) no_progress
        ∙ rw (whole, start))
