-- ===== src/Scheduling/Times.antt =====
-- core/scheduling: the helpers on instants. A `time.Time` is the number of nanoseconds since the zero
-- time, January 1 of year 1, which is 0; instants before it, and durations beyond int64, do not occur.
use meow_cli.Common.{
  ℕ, ◌-◌, ◌*◌, ◌≤◌, ◌≡◌, ◌≢◌, ◌⊎◌, inl, refl, List, [], ◌∷◌, arith, ltb, ◌==◌, ◌||◌, All, In,
  if◌then◌else◌,
}

abbrev pub Time : Type 0
Time = ℕ

abbrev pub second : ℕ
second = 1_000_000_000

abbrev pub minute : ℕ
minute = 60 * second

unfoldable pub window_start : Time → ℕ → Time
window_start reset_at window_seconds =
    if reset_at == 0 || window_seconds == 0 then 0 else reset_at - window_seconds * second

-- The loop of EarliestTime and that of LatestWindowStart.
earliest_loop : Time → List Time → Time
earliest_loop earliest [] = earliest
earliest_loop earliest (t ∷ ts) =
    earliest_loop
      (if t == 0 then earliest else if earliest == 0 || ltb t earliest then t else earliest) ts

unfoldable pub earliest_time : List Time → Time
unfolding earliest_loop
earliest_time ts = earliest_loop 0 ts

latest_loop : Time → List Time → Time
latest_loop latest [] = latest
latest_loop latest (t ∷ ts) =
    latest_loop (if t == 0 then latest else if latest == 0 || ltb latest t then t else latest) ts

unfoldable pub latest_window_start : List Time → Time
unfolding latest_loop
latest_window_start ts = latest_loop 0 ts

-- The instant is at or before every one of the list that is not the zero time.
abbrev pub IsEarliest : Time → List Time → Type 0
IsEarliest e = All λ t. (t ≡ 0) ⊎ ((e ≢ 0) × (e ≤ t))

abbrev pub IsLatest : Time → List Time → Type 0
IsLatest e = All λ t. (t ≡ 0) ⊎ ((e ≢ 0) × (t ≤ e))

earliest_loop_lem :
    (e : Time) (ts : List Time)
    → let r = earliest_loop e ts in
      ((e ≡ 0) ⊎ ((r ≢ 0) × (r ≤ e))) × IsEarliest r ts × ((r ≡ e) ⊎ In r ts)
unfolding earliest_loop
earliest_loop_lem e [] = (ground arith, tt, inl refl)
earliest_loop_lem e (t ∷ ts) =
    let e' : Time = if t == 0 then e else if e == 0 || ltb t e then t else e in
    let (low, all, from) = earliest_loop_lem e' ts in
    (ground arith, (ground arith, all), ground arith)

latest_loop_lem :
    (e : Time) (ts : List Time)
    → let r = latest_loop e ts in
      ((e ≡ 0) ⊎ ((r ≢ 0) × (e ≤ r))) × IsLatest r ts × ((r ≡ e) ⊎ In r ts)
unfolding latest_loop
latest_loop_lem e [] = (ground arith, tt, inl refl)
latest_loop_lem e (t ∷ ts) =
    let e' : Time = if t == 0 then e else if e == 0 || ltb e t then t else e in
    let (low, all, from) = latest_loop_lem e' ts in
    (ground arith, (ground arith, all), ground arith)

-- EarliestTime is the least of the times that are not zero, and zero if there is none.
pub earliest_time-IsEarliest :
    (ts : List Time)
    → IsEarliest (earliest_time ts) ts × ((earliest_time ts ≡ 0) ⊎ In (earliest_time ts) ts)
unfolding earliest_time
earliest_time-IsEarliest ts = let (low, all, from) = earliest_loop_lem 0 ts in (all, from)

-- LatestWindowStart is the greatest of the times that are not zero, and zero if there is none.
pub latest_window_start-IsLatest :
    (ts : List Time)
    → IsLatest (latest_window_start ts) ts
      × ((latest_window_start ts ≡ 0) ⊎ In (latest_window_start ts) ts)
unfolding latest_window_start
latest_window_start-IsLatest ts = let (low, all, from) = latest_loop_lem 0 ts in (all, from)
