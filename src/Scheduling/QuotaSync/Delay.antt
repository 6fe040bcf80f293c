-- ===== src/Scheduling/QuotaSync/Delay.antt =====
-- The delay to the next wake-up, against the rows that are due.
use meow_cli.Common.{
  ℕ, ◌+◌, ◌≤◌, ◌<◌, ◌≡◌, ◌≢◌, ◌∙◌, sym, subst, any→In, In→any, ◌⊎◌, inl, inr, ◌↔◌, refl, Bool, true,
  false, List, [], ◌∷◌, arith, ◌||◌, ◌==◌, any, All, In, Bool-cases, ||-true, leb, if◌then◌else◌,
}
use meow_cli.Scheduling.Times.{Time}
use meow_cli.Scheduling.QuotaSync.{
  Rows, quota_sync_due, quota_reset_refresh_due, next_after, next_delay_loop, next_delay,
  prioritized_due_rows, quota_reset_refresh_grace,
}
use meow_cli.Scheduling.QuotaSync.Due.{In-prioritized_due_rows}

module _ {ℓ} {T : Type ℓ} (q : Rows T) where
  abbrev pub is_due : ℕ → Time → T → Bool
  is_due interval now row =
      quota_reset_refresh_due (q.reset_at row) now || quota_sync_due (q.synced_at row) now interval

  -- No deadline of the row passes before `until`.
  abbrev IsQuiet : ℕ → Time → T → Type 0
  IsQuiet interval until row =
      (q.synced_at row ≢ 0)
      × (until ≤ q.synced_at row + interval)
      × ((q.reset_at row ≡ 0) ⊎ (until ≤ q.reset_at row + quota_reset_refresh_grace))

  next_after-le :
      (interval : ℕ) (now : Time) (next : ℕ) (row : T) → next_after q interval now next row ≤ next
  unfolding next_after
  next_after-le interval now next row = ground arith

  next_after-IsQuiet :
      (interval : ℕ) (now : Time) (next : ℕ) (row : T)
      → 0 < next
      → is_due interval now row ≡ false
      → let d = next_after q interval now next row in (0 < d) × IsQuiet interval (now + d) row
  unfolding next_after
  next_after-IsQuiet interval now next row p h = ground arith

  -- The step of the loop, by whether the row is due.
  next_delay_loop-cons :
      (interval : ℕ) (now : Time) (next : ℕ) (row : T) (rows : List T)
      → next_delay_loop q interval now next (row ∷ rows) ≡ (
          if is_due interval now row
          then 0
          else next_delay_loop q interval now (next_after q interval now next row) rows)
  unfolding next_delay_loop
  next_delay_loop-cons interval now next row rows =
      step (next_delay_loop q interval now (next_after q interval now next row) rows)
    where
      step :
          (rest : ℕ)
          → (if q.synced_at row == 0
              then 0
              else if leb (q.synced_at row + interval) now
              then 0
              else if q.reset_at row == 0
              then rest
              else if leb (q.reset_at row + quota_reset_refresh_grace) now
              then 0
              else rest)
            ≡ (if is_due interval now row then 0 else rest)
      step rest = ground arith

  next_delay_loop-le :
      (interval : ℕ) (now : Time) (next : ℕ) (rows : List T)
      → next_delay_loop q interval now next rows ≤ next
  next_delay_loop-le interval now next [] = unfold next_delay_loop in omega arith
  next_delay_loop-le interval now next (row ∷ rows) =
      rw (next_delay_loop-cons interval now next row rows) (
        ground (
          arith,
          next_delay_loop-le interval now (next_after q interval now next row) rows,
          next_after-le interval now next row,
        ))

  next_delay_loop-due :
      (interval : ℕ) (now : Time) (next : ℕ) (rows : List T)
      → any (is_due interval now) rows ≡ true
      → next_delay_loop q interval now next rows ≡ 0
  next_delay_loop-due interval now next [] h = cc
  next_delay_loop-due interval now next (row ∷ rows) h =
      elim (Bool-cases (is_due interval now row)) [
        | inl e ↦ rw (next_delay_loop-cons interval now next row rows, e)
        | inr e ↦
            rw (next_delay_loop-cons interval now next row rows, e)
              (next_delay_loop-due interval now (next_after q interval now next row) rows
                (rw e at h))
      ]

  next_delay_loop-IsQuiet :
      (interval : ℕ) (now : Time) (next : ℕ) (rows : List T)
      → 0 < next
      → any (is_due interval now) rows ≡ false
      → let d = next_delay_loop q interval now next rows in
        (0 < d) × All (IsQuiet interval (now + d)) rows
  next_delay_loop-IsQuiet interval now next [] p h = (unfold next_delay_loop in p, tt)
  next_delay_loop-IsQuiet interval now next (row ∷ rows) p h =
      let e : is_due interval now row ≡ false = ground arith in
      let later : any (is_due interval now) rows ≡ false = ground arith in
      let next' = next_after q interval now next row in
      let (pos, quiet) = next_after-IsQuiet interval now next row p e in
      let (pos', all) = next_delay_loop-IsQuiet interval now next' rows pos later in
      let low = next_delay_loop-le interval now next' rows in
      let same : next_delay_loop q interval now next' rows
          ≡ next_delay_loop q interval now next (row ∷ rows) =
        sym (next_delay_loop-cons interval now next row rows ∙ rw e) in
      subst (λ d. (0 < d) × All (IsQuiet interval (now + d)) (row ∷ rows)) same
        (pos', ((quiet.0, omega arith, ground arith), all))

  due_iff :
      (interval : ℕ) (now : Time) (rows : List T)
      → (prioritized_due_rows q rows now interval ≢ []) ↔ (any (is_due interval now) rows ≡ true)
  due_iff interval now rows = (from _ refl, into)
    where
      from :
          (due : List T)
          → prioritized_due_rows q rows now interval ≡ due
          → prioritized_due_rows q rows now interval ≢ []
          → any (is_due interval now) rows ≡ true
      from [] e h = absurd (h e)
      from (row ∷ due) e h =
          let there : In row (prioritized_due_rows q rows now interval) = rw e (inl refl) in
          let (m, d) = (In-prioritized_due_rows q now interval rows row).0 there in
          In→any (is_due interval now) rows row m (ground arith)

      into : any (is_due interval now) rows ≡ true → prioritized_due_rows q rows now interval ≢ []
      into h e =
          let (row, m, d) = any→In (is_due interval now) rows h in
          let there = (In-prioritized_due_rows q now interval rows row).1 (m, ||-true _ _ d) in
          let nowhere : In row [] = rw e at there in nowhere refl

  none_due :
      (interval : ℕ) (now : Time) (rows : List T)
      → prioritized_due_rows q rows now interval ≡ []
      → any (is_due interval now) rows ≡ false
  none_due interval now rows e = elim (Bool-cases (any (is_due interval now) rows)) [
    | inl h ↦ absurd ((due_iff interval now rows).1 h e)
    | inr h ↦ h
  ]

  pub next_delay_due :
      (rows : List T) (now : Time) (interval : ℕ)
      → any (is_due interval now) rows ≡ true
      → next_delay q rows now interval ≡ 0
  unfolding next_delay
  next_delay_due rows now interval h = next_delay_loop-due interval now interval rows h

  -- Where the interval is positive, the next delay is zero exactly when some row is due now, and it
  -- is never longer than the interval.
  pub next_delay_iff :
      (rows : List T) (now : Time) (interval : ℕ)
      → 0 < interval
      → ((next_delay q rows now interval ≡ 0) ↔ (prioritized_due_rows q rows now interval ≢ []))
        × (next_delay q rows now interval ≤ interval)
  unfolding next_delay
  next_delay_iff rows now interval p = (
    (
      λ z. (due_iff interval now rows).1 (elim (Bool-cases (any (is_due interval now) rows)) [
        | inl h ↦ h
        | inr h ↦
            let late = next_delay_loop-IsQuiet interval now interval rows p h in
            absurd (omega arith)
      ]),
      λ h. next_delay_loop-due interval now interval rows ((due_iff interval now rows).0 h),
    ),
    next_delay_loop-le interval now interval rows,
  )

  quiet_row :
      (interval : ℕ) (until later : Time) (row : T)
      → later < until
      → IsQuiet interval until row
      → is_due interval later row ≡ false
  quiet_row interval until later row h k = ground arith

  quiet_rows :
      (interval : ℕ) (until later : Time) (rows : List T)
      → later < until
      → All (IsQuiet interval until) rows
      → any (is_due interval later) rows ≡ false
  quiet_rows interval until later [] h k = refl
  quiet_rows interval until later (row ∷ rows) h k =
      ground (
        arith,
        quiet_row interval until later row h k.0,
        quiet_rows interval until later rows h k.1,
      )

  -- Where the interval is positive and no row is due now, no row is due at any time before the
  -- delay is over.
  pub next_delay_quiet :
      (rows : List T) (now later : Time) (interval : ℕ)
      → 0 < interval
      → prioritized_due_rows q rows now interval ≡ []
      → later < now + next_delay q rows now interval
      → prioritized_due_rows q rows later interval ≡ []
  unfolding next_delay
  next_delay_quiet rows now later interval p e h =
      let (pos, all) =
        next_delay_loop-IsQuiet interval now interval rows p (none_due interval now rows e) in
      let quiet = quiet_rows interval _ later rows h all in empty _ refl quiet
    where
      empty :
          (due : List T)
          → prioritized_due_rows q rows later interval ≡ due
          → any (is_due interval later) rows ≡ false
          → prioritized_due_rows q rows later interval ≡ []
      empty [] same quiet = same
      empty (row ∷ due) same quiet =
          let some_due = (due_iff interval later rows).0 (λ none. ground (arith, none, same)) in cc
