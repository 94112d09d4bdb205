-- ===== src/Connection/Schedule/Calendar/Resolve.antt =====
-- connection.schedule.ts: the instants of a scheduled day, in order.
use svforb.Common.{
  ℕ, ◌+◌, ◌*◌, ◌-◌, ◌≤◌, ◌<◌, ◌≡◌, refl, arith, leb, Bool-cases, inl, inr, if◌then◌else◌,
}
use svforb.Common.Int.{ℤ, neg_part, pos_part}
use svforb.Connection.Schedule.Clock.{Text, ScheduleInput, list_by_minutes, charity_confirm_minutes}
use svforb.Connection.Schedule.Clock.Validation.{IsValidSchedule}
use svforb.Connection.Schedule.Calendar.{
  Intl, utc_midnight, ms_per_day, ms_per_minute, resolve_day, add_days, list_by_at,
}
use svforb.Connection.Schedule.Calendar.Instant.{KeepsOffset, instant_for_local_time_lem}

-- In any zone, a valid schedule asks the business no later than the charity's deadline, and that
-- deadline is at most 30 minutes before the window and never after its start.
pub resolve_day_order :
    (intl : Intl) (zone : Text) (s : ScheduleInput) (date : ℕ)
    → IsValidSchedule s
    → let day = resolve_day intl zone s date in
      (day.prompt_at ≤ day.cutoff_at)
      × (day.cutoff_at ≤ day.window_start_at)
      × (day.window_start_at ≤ day.cutoff_at + charity_confirm_minutes * ms_per_minute)
unfolding resolve_day
resolve_day_order intl zone s date v = ground arith

-- A valid schedule with a lead time below the list-by deadline asks the business only after that
-- deadline has passed, for a window that starts at least an hour after the earliest date.
pub short_lead_prompts_late :
    (intl : Intl) (zone : Text) (s : ScheduleInput) (date : ℕ)
    → IsValidSchedule s
    → s.lead_time_minutes < list_by_minutes
    → list_by_minutes * ms_per_minute ≤ (resolve_day intl zone s date).window_start_at
    → list_by_at (resolve_day intl zone s date).window_start_at
      < (resolve_day intl zone s date).prompt_at
unfolding resolve_day list_by_at
short_lead_prompts_late intl zone s date v short room = ground arith

-- How many days after its date a window ends.
abbrev pub end_shift : ScheduleInput → ℕ
end_shift s = if leb s.window_end_minutes s.window_start_minutes then ms_per_day else 0

module _ (intl : Intl) {zone : Text} {offset : ℤ} {low : ℕ}
    (k : KeepsOffset intl zone offset low) where
  start_at_steady :
      (s : ScheduleInput) (date : ℕ)
      → low + ms_per_day ≤ utc_midnight date
      → (resolve_day intl zone s date).window_start_at + pos_part offset
        ≡ utc_midnight date + s.window_start_minutes * ms_per_minute + neg_part offset
  unfolding resolve_day
  start_at_steady s date late =
      let east = k.east_bound in
      rw (instant_for_local_time_lem intl k date s.window_start_minutes (omega arith)) (omega arith)

  end_at_steady :
      (s : ScheduleInput) (date : ℕ)
      → low + ms_per_day ≤ utc_midnight date
      → (resolve_day intl zone s date).window_end_at + pos_part offset
        ≡ utc_midnight date + end_shift s + s.window_end_minutes * ms_per_minute + neg_part offset
  unfolding resolve_day
  end_at_steady s date late =
      let east = k.east_bound in
      elim (Bool-cases (leb s.window_end_minutes s.window_start_minutes)) [
        | inl night ↦
            rw
              (
                night,
                instant_for_local_time_lem intl k (add_days date 1) s.window_end_minutes
                    (omega arith),
              )
              (omega arith)
        | inr day ↦
            rw (day, instant_for_local_time_lem intl k date s.window_end_minutes (omega arith))
              (omega arith)
      ]

  -- In a zone with one offset from an instant at least a day before the date: the window of the
  -- date in UTC readings, where it starts and ends, and when the prompt comes.
  pub resolve_day_steady :
      (s : ScheduleInput) (date : ℕ)
      → low + ms_per_day ≤ utc_midnight date
      → let day = resolve_day intl zone s date in
        (day.window_start_at + pos_part offset
          ≡ utc_midnight date + s.window_start_minutes * ms_per_minute + neg_part offset)
        × (day.window_end_at + pos_part offset
            ≡ utc_midnight date
              + end_shift s
              + s.window_end_minutes * ms_per_minute
              + neg_part offset)
        × (day.prompt_at ≡ day.window_start_at - s.lead_time_minutes * ms_per_minute)
  unfolding resolve_day
  resolve_day_steady s date late = (start_at_steady s date late, end_at_steady s date late, refl)

  -- In a zone with one offset from an instant at least a day before the date, a valid window
  -- starts before it ends, and lasts less than a day.
  pub window_length :
      (s : ScheduleInput) (date : ℕ)
      → IsValidSchedule s
      → low + ms_per_day ≤ utc_midnight date
      → let day = resolve_day intl zone s date in
        (day.window_start_at < day.window_end_at)
        × (day.window_end_at < day.window_start_at + ms_per_day)
  window_length s date v late =
      let (starts, ends, _) = resolve_day_steady s date late in ground arith
