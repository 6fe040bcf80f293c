-- ===== src/Scheduling/QuotaSync/Due.antt =====
-- The rows that a sync visits.
use mathlib.Core.List.{append_assoc, append-nil}
use meow_cli.Common.{
  ℕ, ◌≡◌, ◌∙◌, ◌⊎◌, inl, inr, ◌↔◌, Bool, true, List, [], ◌∷◌, ◌++◌, arith, keep, not, ◌&&◌, In,
  In-keep, keep-In, In-append, In-append_left, In-append_right, Bool-cases, &&-true,
}
use meow_cli.Scheduling.Times.{Time}
use meow_cli.Scheduling.QuotaSync.{
  Rows, quota_sync_due, quota_reset_refresh_due, due_loop, prioritized_due_rows,
}

module _ {ℓ} {T : Type ℓ} (q : Rows T) (now : Time) (interval : ℕ) where
  abbrev pub reset_due : T → Bool
  reset_due row = quota_reset_refresh_due (q.reset_at row) now

  abbrev pub interval_due : T → Bool
  interval_due row = not (reset_due row) && quota_sync_due (q.synced_at row) now interval

  -- One of the two deadlines of the row has passed.
  abbrev pub IsDue : T → Type 0
  IsDue row = (reset_due row ≡ true) ⊎ (quota_sync_due (q.synced_at row) now interval ≡ true)

  due_loop_lem :
      (rows first second : List T)
      → due_loop q now interval rows first second
        ≡ (first ++ keep reset_due rows) ++ (second ++ keep interval_due rows)
  unfolding due_loop
  due_loop_lem [] first second = rw (append-nil first, append-nil second)
  due_loop_lem (row ∷ rows) first second = elim (Bool-cases (reset_due row)) [
    | inl e ↦ rw e (
        due_loop_lem rows (first ++ (row ∷ [])) second
        ∙ rw (append_assoc first (row ∷ []) (keep reset_due rows)))
    | inr e ↦ elim (Bool-cases (quota_sync_due (q.synced_at row) now interval)) [
      | inl d ↦
          rw (e, d)
            (due_loop_lem rows first (second ++ (row ∷ []))
              ∙ rw (append_assoc second (row ∷ []) (keep interval_due rows)))
      | inr d ↦ rw (e, d) (due_loop_lem rows first second)
    ]
  ]

  -- The due rows are those whose reset has passed, in their order, and then those whose sync
  -- interval has passed; each row keeps its multiplicity.
  pub prioritized_due_rows_lem :
      (rows : List T)
      → prioritized_due_rows q rows now interval ≡ keep reset_due rows ++ keep interval_due rows
  unfolding prioritized_due_rows
  prioritized_due_rows_lem rows = due_loop_lem rows [] []

  -- A row is visited by a sync exactly when it is listed and one of its two deadlines has passed.
  pub In-prioritized_due_rows :
      (rows : List T) (row : T)
      → In row (prioritized_due_rows q rows now interval) ↔ (In row rows × IsDue row)
  In-prioritized_due_rows rows row = rw (prioritized_due_rows_lem rows) (from, into)
    where
      late_reset : In row (keep reset_due rows) → In row rows × IsDue row
      late_reset m = let (there, e) = In-keep reset_due row rows m in (there, inl e)

      late_sync : In row (keep interval_due rows) → In row rows × IsDue row
      late_sync m =
          let (there, e) = In-keep interval_due row rows m in
          (there, inr (&&-true (not (reset_due row)) _ e).1)

      from : In row (keep reset_due rows ++ keep interval_due rows) → In row rows × IsDue row
      from m = elim (In-append row (keep reset_due rows) _ m) [
        | inl l ↦ late_reset l
        | inr r ↦ late_sync r
      ]

      into : In row rows × IsDue row → In row (keep reset_due rows ++ keep interval_due rows)
      into (there, d) = elim (Bool-cases (reset_due row)) [
        | inl e ↦ In-append_left row _ _ (keep-In reset_due row rows there e)
        | inr e ↦
            In-append_right row (keep reset_due rows) _
              (keep-In interval_due row rows there (ground arith))
      ]
