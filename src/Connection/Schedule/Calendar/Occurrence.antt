-- ===== src/Connection/Schedule/Calendar/Occurrence.antt =====
-- connection.schedule.ts: the search for the next collection, and the days whose prompt is due.
use svforb.Common.{
  ℕ, zero, suc, ◌+◌, ◌/◌, ◌%◌, ◌-◌, ◌≤◌, ◌<◌, ◌≡◌, ◌≢◌, refl, arith, true, false, ltb, Bool,
  Bool-cases, inl, inr, List, [], ◌∷◌, some, In, All, In→includes, ◌&&◌, if◌then◌else◌,
}
use native.Mathlib.Decide.{ℕ_discrete}
use svforb.Common.Int.{ℤ}
use svforb.Connection.Schedule.Clock.{Text, ScheduleInput}
use svforb.Connection.Schedule.Clock.Validation.{IsValidSchedule, IsWeekday}
use svforb.Connection.Schedule.Calendar.{
  Intl, local_date_at, ms_per_day, add_days, iso_weekday_of, collects_on, resolve_day, ResolvedDay,
  next_from, next_occurrence,
}
use svforb.Connection.Schedule.Calendar.Instant.{KeepsOffset, local_date_at_lem}
use svforb.Connection.Schedule.Calendar.Resolve.{resolve_day_steady}

-- Within the seven days that follow any date there is one of each weekday.
weekday_ahead :
    (date d : ℕ) → IsWeekday d → (j : ℕ) × (j < 7) × (iso_weekday_of (add_days date (suc j)) ≡ d)
unfolding iso_weekday_of
weekday_ahead date d w = ((d + 21 - (date / ms_per_day + 3) % 7) % 7, omega arith, ground arith)

some-IsWeekday : (ds : List ℕ) → ds ≢ [] → All IsWeekday ds → (d : ℕ) × In d ds × IsWeekday d
some-IsWeekday [] h w = absurd (h refl)
some-IsWeekday (d ∷ ds) h (w, _) = (d, inl refl, w)

collects_on_lem :
    (s : ScheduleInput) (date : ℕ)
    → In (iso_weekday_of date) s.days_of_week
    → collects_on s date ≡ true
unfolding collects_on
collects_on_lem s date h = In→includes s.days_of_week (iso_weekday_of date) h

next_occurrence_lem :
    (intl : Intl) (zone : Text) (s : ScheduleInput) (from : ℕ)
    → s.days_of_week ≢ []
    → next_occurrence intl zone s from ≡ next_from intl zone s from 8 0
unfolding next_occurrence
next_occurrence_lem intl zone s from h = ground arith

module _ (intl : Intl) (zone : Text) (s : ScheduleInput) (from : ℕ) where
  -- The day that the search looks at `k` days ahead, and whether it stops there.
  abbrev pub day_ahead : ℕ → ResolvedDay
  day_ahead k = resolve_day intl zone s (add_days (local_date_at intl zone from) k)

  abbrev pub stops : ℕ → Bool
  stops k =
      collects_on s (add_days (local_date_at intl zone from) k)
      && ltb from (day_ahead k).window_end_at

  -- The day is the first that the search stops at, `offset` days ahead or later.
  abbrev pub FirstStop : ℕ → ResolvedDay → Type 0
  FirstStop offset day =
      (k : ℕ) × (stops k ≡ true)
      × (day ≡ day_ahead k)
      × ((i : ℕ) → offset ≤ i → i < k → stops i ≡ false)

  next_from-step :
      (rounds offset : ℕ)
      → next_from intl zone s from (suc rounds) offset ≡ (
          if stops offset
          then some (day_ahead offset)
          else next_from intl zone s from rounds (offset + 1))
  unfolding next_from
  next_from-step rounds offset = ground arith

  later_stop :
      (offset : ℕ) {day : ResolvedDay}
      → stops offset ≡ false
      → FirstStop (offset + 1) day
      → FirstStop offset day
  later_stop offset passed (k, stop, same, before) = (
    k,
    stop,
    same,
    λ i above below. elim (ℕ_discrete offset i) [
      | yes here ↦ rw (← here) passed
      | no further ↦ before i (omega arith) below
    ],
  )

  next_from-total :
      (rounds offset j : ℕ)
      → offset ≤ j
      → j < offset + rounds
      → stops j ≡ true
      → (day : ResolvedDay) × (next_from intl zone s from rounds offset ≡ some day)
        × FirstStop offset day
  next_from-total zero offset j low high stop = absurd (omega arith)
  next_from-total (suc rounds) offset j low high stop = elim (Bool-cases (stops offset)) [
    | inl here ↦ (
      day_ahead offset,
      rw (next_from-step rounds offset, here),
      (offset, here, refl, λ i above below. absurd (omega arith)),
    )
    | inr not_here ↦
        let apart : offset ≢ j = λ e. cc (e, stop, not_here) in
        let (day, found, first) =
          next_from-total rounds (offset + 1) j (omega arith) (omega arith) stop in
        (day, rw (next_from-step rounds offset, not_here) found, later_stop offset not_here first)
  ]

module _ (intl : Intl) {zone : Text} {offset : ℤ} {low : ℕ}
    (k : KeepsOffset intl zone offset low) where
  -- A window on a later date of the site's calendar has not ended yet.
  later_window_open :
      (s : ScheduleInput) (from j : ℕ)
      → low + ms_per_day + ms_per_day ≤ from
      → from < (day_ahead intl zone s from (suc j)).window_end_at
  later_window_open s from j late =
      let today = local_date_at_lem intl k from (omega arith) in
      let east = k.east_bound in
      let west = k.west_bound in
      let (_, ends, _) =
        resolve_day_steady intl k s (add_days (local_date_at intl zone from) (suc j))
          (omega arith) in
      omega arith

  -- In a zone with one offset since two days before, a valid schedule always has a next
  -- collection, found within a week: `nextOccurrence` returns the first date from today on that
  -- the schedule collects on and whose window is still open.
  pub next_occurrence-first :
      (s : ScheduleInput) (from : ℕ)
      → IsValidSchedule s
      → low + ms_per_day + ms_per_day ≤ from
      → (day : ResolvedDay) × (next_occurrence intl zone s from ≡ some day)
        × FirstStop intl zone s from 0 day
  next_occurrence-first s from v late =
      let (d, listed, week) = some-IsWeekday s.days_of_week v.some_day v.weekdays in
      let (j, below, lands) = weekday_ahead (local_date_at intl zone from) d week in
      let open_window = later_window_open s from j late in
      let collecting =
        collects_on_lem s (add_days (local_date_at intl zone from) (suc j)) (rw lands listed) in
      rw (next_occurrence_lem intl zone s from v.some_day)
        (next_from-total intl zone s from 8 0 (suc j) (omega arith) (omega arith) (ground arith))
