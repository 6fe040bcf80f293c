-- ===== src/Logs/Store/Invariant.antt =====
-- What every insertion keeps: the rows stand in the order of their times, and the memory is bounded.
use meow_cli.Common.{
  ℕ, zero, suc, ◌+◌, ◌-◌, ◌*◌, ◌≤◌, ◌<◌, ◌≡◌, refl, Bool, false, List, [], ◌∷◌, ◌++◌, arith, leb,
  length, drop, drop-length, leb→le, All, All-append, All-mono, length-drop, Bool-cases, inl, inr,
}
use meow_cli.Common.Text.{Text}
use meow_cli.Scheduling.Times.{Time}
use meow_cli.Logs.Rows.{LogRow, InsertLogParams}
use meow_cli.Logs.Store.{
  Store, Limits, max_rows, is_expired, compact_locked, log_row, insert_log, needs_prune,
  snapshot_rows, first_expired,
}
use meow_cli.Logs.Store.Retention.{visible, live, retained, visible-insert_log, snapshot_rows_lem}

module _ {W : Type 0} where
  abbrev pub IsOrdered : List (LogRow W) → Type 0
  IsOrdered [] = Unit
  IsOrdered (row ∷ rows) = All (λ r. row.created_at ≤ r.created_at) rows × IsOrdered rows

  -- Older rows first, and none from the future.
  pub record IsStore (now : Time) (s : Store W) : Type 0 where
    pub ordered : IsOrdered (visible s)
    pub past : All (λ r. r.created_at ≤ now) (visible s)

  pub All-drop :
      (P : LogRow W → Type 0) (n : ℕ) (rows : List (LogRow W)) → All P rows → All P (drop n rows)
  All-drop P zero rows h = h
  All-drop P (suc n) [] h = tt
  All-drop P (suc n) (row ∷ rows) h = All-drop P n rows h.1

  IsOrdered-drop : (n : ℕ) (rows : List (LogRow W)) → IsOrdered rows → IsOrdered (drop n rows)
  IsOrdered-drop zero rows h = h
  IsOrdered-drop (suc n) [] h = tt
  IsOrdered-drop (suc n) (row ∷ rows) h = IsOrdered-drop n rows h.1

  All-live :
      (P : LogRow W → Type 0) (now : Time) (retention : ℕ) (rows : List (LogRow W))
      → All P rows
      → All P (live now retention rows)
  unfolding live
  All-live P now retention [] h = tt
  All-live P now retention (row ∷ rows) h = elim (Bool-cases (is_expired now retention row)) [
    | inl e ↦ rw e (All-live P now retention rows h.1)
    | inr e ↦ rw e h
  ]

  IsOrdered-live :
      (now : Time) (retention : ℕ) (rows : List (LogRow W))
      → IsOrdered rows
      → IsOrdered (live now retention rows)
  unfolding live
  IsOrdered-live now retention [] h = tt
  IsOrdered-live now retention (row ∷ rows) h = elim (Bool-cases (is_expired now retention row)) [
    | inl e ↦ rw e (IsOrdered-live now retention rows h.1)
    | inr e ↦ rw e h
  ]

  IsOrdered-retained :
      (now : Time) (limits : Limits) (rows : List (LogRow W))
      → IsOrdered rows
      → IsOrdered (retained now limits rows)
  IsOrdered-retained now limits rows h = ground (arith, IsOrdered-live now limits.retention rows h)

  All-retained :
      (P : LogRow W → Type 0) (now : Time) (limits : Limits) (rows : List (LogRow W))
      → All P rows
      → All P (retained now limits rows)
  All-retained P now limits rows h = ground (arith, All-live P now limits.retention rows h)

  IsOrdered-snoc :
      (rows : List (LogRow W)) (row : LogRow W)
      → IsOrdered rows
      → All (λ r. r.created_at ≤ row.created_at) rows
      → IsOrdered (rows ++ (row ∷ []))
  IsOrdered-snoc [] row h k = (tt, tt)
  IsOrdered-snoc (r ∷ rows) row h k =
      (All-append _ rows (row ∷ []) h.0 (k.0, tt), IsOrdered-snoc rows row h.1 k.1)

  -- An insertion at a time that is not before the last one keeps the stored rows in the order of
  -- their times, none from the future.
  pub insert_log-IsStore :
      (json_valid : Text → Bool) (limits : Limits) (before now : Time) (arg : InsertLogParams W)
      (s : Store W)
      → before ≤ now
      → IsStore before s
      → IsStore now (insert_log json_valid false limits now arg s).0
  insert_log-IsStore json_valid limits before now arg s h v = record {
    ordered = rw (visible-insert_log json_valid limits now arg s) (IsOrdered-drop _ _ in_order);
    past = rw (visible-insert_log json_valid limits now arg s) (All-drop _ _ _ all_past);
  }
    where
      row : LogRow W
      row = log_row json_valid now arg

      kept : List (LogRow W)
      kept = retained now limits (visible s)

      row_time : row.created_at ≡ now
      row_time = unfold log_row in refl

      old_past : All (λ r. r.created_at ≤ now) kept
      old_past = All-retained _ now limits (visible s) (
          All-mono (λ r. r.created_at ≤ before) (λ r. r.created_at ≤ now) (visible s)
            (λ r k. omega arith) v.past)

      in_order : IsOrdered (kept ++ (row ∷ []))
      in_order = IsOrdered-snoc kept row (IsOrdered-retained now limits (visible s) v.ordered) (
          All-mono (λ r. r.created_at ≤ now) (λ r. r.created_at ≤ row.created_at) kept
            (λ r k. omega (arith, row_time)) old_past)

      all_past : All (λ r. r.created_at ≤ now) (kept ++ (row ∷ []))
      all_past =
          All-append (λ r. r.created_at ≤ now) kept (row ∷ []) old_past
            (omega (arith, row_time), tt)

  -- A row is unexpired.
  abbrev pub IsLive : Time → ℕ → LogRow W → Type 0
  IsLive now retention row = now < row.created_at + retention

  live-IsLive :
      (now : Time) (retention : ℕ) (rows : List (LogRow W))
      → IsOrdered rows
      → All (IsLive now retention) (live now retention rows)
  unfolding live
  live-IsLive now retention [] h = tt
  live-IsLive now retention (row ∷ rows) h = elim (Bool-cases (is_expired now retention row)) [
    | inl e ↦ rw e (live-IsLive now retention rows h.1)
    | inr e ↦ rw e (
      ground arith,
      All-mono (λ r. row.created_at ≤ r.created_at) (IsLive now retention) rows
          (λ r k. ground arith) h.0,
    )
  ]

  unpruned-IsLive :
      (now : Time) (retention : ℕ) (rows : List (LogRow W))
      → IsOrdered rows
      → first_expired now retention rows ≡ false
      → All (IsLive now retention) rows
  unfolding first_expired
  unpruned-IsLive now retention [] h e = tt
  unpruned-IsLive now retention (row ∷ rows) h e = (
    ground arith,
    All-mono (λ r. row.created_at ≤ r.created_at) (IsLive now retention) rows (λ r k. ground arith)
        h.0,
  )

  retained-IsLive :
      (now : Time) (limits : Limits) (rows : List (LogRow W))
      → IsOrdered rows
      → All (IsLive now limits.retention) (retained now limits rows)
  retained-IsLive now limits rows h = ground (arith, live-IsLive now limits.retention rows h)

  unneeded-IsLive :
      (now : Time) (limits : Limits) (s : Store W)
      → IsOrdered (visible s)
      → needs_prune now limits s ≡ false
      → All (IsLive now limits.retention) (visible s)
  unfolding needs_prune
  unneeded-IsLive now limits s h e = elim (Bool-cases (leb (length s.rows) s.head)) [
    | inl k ↦ rw (drop-length s.head s.rows (leb→le _ _ k)) tt
    | inr k ↦ unpruned-IsLive now limits.retention (visible s) h (ground arith)
  ]

  -- No snapshot of a store in the order of times shows an expired row.
  pub snapshot_rows-IsLive :
      (now : Time) (limits : Limits) (s : Store W)
      → IsOrdered (visible s)
      → All (IsLive now limits.retention) (snapshot_rows now limits s).1
  snapshot_rows-IsLive now limits s h =
      rw (snapshot_rows_lem now limits s) (elim (Bool-cases (needs_prune now limits s)) [
        | inl e ↦
            rw e (
              All-drop (IsLive now limits.retention) _ _ (retained-IsLive now limits (visible s) h))
        | inr e ↦ rw e (unneeded-IsLive now limits s h e)
      ])

  pub snapshot_rows-IsOrdered :
      (now : Time) (limits : Limits) (s : Store W)
      → IsOrdered (visible s)
      → IsOrdered (snapshot_rows now limits s).1
  snapshot_rows-IsOrdered now limits s h =
      rw (snapshot_rows_lem now limits s) (elim (Bool-cases (needs_prune now limits s)) [
        | inl e ↦ rw e (IsOrdered-drop _ _ (IsOrdered-retained now limits (visible s) h))
        | inr e ↦ rw e h
      ])

  -- The slice is at most twice as long as what is visible, and at most 1023 rows longer.
  abbrev pub IsCompact : Store W → Type 0
  IsCompact s =
      (length s.rows ≤ 2 * length (visible s)) × (length s.rows ≤ length (visible s) + 1023)

  compact_locked-IsCompact : (s : Store W) → IsCompact (compact_locked s)
  unfolding compact_locked
  compact_locked-IsCompact s = ground (arith, length-drop s.head s.rows)

  -- A stored entry leaves at most as many rows as the limit, in a slice that is at most twice as
  -- long as they are and at most 1023 rows longer.
  pub insert_log-IsCompact :
      (json_valid : Text → Bool) (limits : Limits) (now : Time) (arg : InsertLogParams W)
      (s : Store W)
      → let s' = (insert_log json_valid false limits now arg s).0 in
        (length (visible s') ≤ max_rows limits) × IsCompact s'
  insert_log-IsCompact json_valid limits now arg s = (bounded, compact)
    where
      all : List (LogRow W)
      all = retained now limits (visible s) ++ (log_row json_valid now arg ∷ [])

      bounded : length (visible (insert_log json_valid false limits now arg s).0) ≤ max_rows limits
      bounded =
          rw (visible-insert_log json_valid limits now arg s)
            (omega (arith, length-drop (length all - max_rows limits) all))

      compact : IsCompact (insert_log json_valid false limits now arg s).0
      compact = unfold insert_log in compact_locked-IsCompact _
