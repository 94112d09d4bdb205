-- ===== src/Connection/Schedule/Tests.antt =====
-- connection.schedule.ts: runs at concrete inputs, in a zone ten hours ahead of UTC and others.
use svforb.Common.{
  ℕ, ◌+◌, ◌*◌, ◌/◌, ◌%◌, ◌≤◌, ◌≡◌, ◌↔◌, refl, true, false, none, some, [], ◌∷◌, In, ok, arith, ◌==◌,
}
use svforb.Common.Int.{pos, sub_ℕ}
use svforb.Connection.Schedule.Clock.{
  Text, parse_local_time, format_local_time, format_clock12, format_window, format_window_range,
  is_space, ScheduleInput, validate_schedule, PickupWindow,
}
use svforb.Connection.Schedule.Clock.Text.{parse-format}
use svforb.Connection.Schedule.Clock.Validation.{IsValidSchedule, validate_schedule_iff}
use svforb.Connection.Schedule.Calendar.{
  Intl, ResolvedDay, ms_per_day, utc_midnight, naive_instant, offset_at, local_date_at,
  instant_for_local_time, earlier_by, resolve_day, next_occurrence, due_days, day_word_is_tomorrow,
  iso_weekday_of, collects_on, assert_valid_timezone, resolve_donor_timezone,
}
use svforb.Connection.Schedule.Calendar.Instant.{KeepsOffset, instant_for_local_time_lem}
use svforb.Connection.Schedule.Calendar.Occurrence.{FirstStop, next_occurrence-first}
use svforb.Connection.Schedule.Calendar.Due.{IsDueDate, due_days_iff}

text_tests :
    (parse_local_time (b' ' ∷ b'1' ∷ b'6' ∷ b':' ∷ b'3' ∷ b'0' ∷ []) ≡ ok 990)
    × (format_local_time 545 ≡ b'0' ∷ b'9' ∷ b':' ∷ b'0' ∷ b'5' ∷ [])
    × (format_clock12 0 true ≡ b'1' ∷ b'2' ∷ b':' ∷ b'0' ∷ b'0' ∷ b' ' ∷ b'a' ∷ b'm' ∷ [])
    × (format_window 540 600
        ≡ b'9' ∷ b':' ∷ b'0' ∷ b'0' ∷ b'a' ∷ b'm' ∷ 0x2013 ∷ b'1' ∷ b'0' ∷ b':' ∷ b'0' ∷ b'0' ∷ b'a'
          ∷ b'm' ∷ [])
    × (format_window_range 540 600
        ≡ b'9' ∷ b':' ∷ b'0' ∷ b'0' ∷ 0x2013 ∷ b'1' ∷ b'0' ∷ b':' ∷ b'0' ∷ b'0' ∷ b' ' ∷ b'a' ∷ b'm'
          ∷ [])
unfolding parse_local_time is_space format_local_time format_clock12 format_window
    format_window_range
text_tests = (refl, refl, refl, refl, refl)

parse-format_example : parse_local_time (format_local_time 1085) ≡ ok 1085
parse-format_example = parse-format 1085 (omega arith)

abbrev half_past_four : Text
half_past_four = b' ' ∷ b'1' ∷ b'6' ∷ b':' ∷ b'3' ∷ b'0' ∷ []

-- Monday and Thursday, 16:00 to 18:00, asked four hours before.
abbrev weekly : ScheduleInput
weekly = record {
  days_of_week = 1 ∷ 4 ∷ [];
  window_start_minutes = 960;
  window_end_minutes = 1080;
  lead_time_minutes = 240;
  cutoff_minutes = 30;
}

validate_schedule_iff_example : (validate_schedule weekly ≡ ok tt) ↔ IsValidSchedule weekly
validate_schedule_iff_example = validate_schedule_iff weekly

weekly-IsValidSchedule : IsValidSchedule weekly
unfolding validate_schedule
weekly-IsValidSchedule = (validate_schedule_iff weekly).0 refl

-- Asked only half an hour before.
abbrev hasty : ScheduleInput
hasty = record weekly { lead_time_minutes = 30 }

hasty-IsValidSchedule : IsValidSchedule hasty
unfolding validate_schedule
hasty-IsValidSchedule = (validate_schedule_iff hasty).0 refl

-- From 22:00 on Mondays to 02:00, and on Tuesdays from 01:00 to 03:00.
abbrev night : PickupWindow
night = record { days_of_week = 1 ∷ []; window_start_minutes = 1320; window_end_minutes = 120 }

abbrev early : PickupWindow
early = record { days_of_week = 2 ∷ []; window_start_minutes = 60; window_end_minutes = 180 }

-- The clock of a zone with a fixed offset ahead of UTC.
abbrev ahead_by : ℕ → Intl
ahead_by offset = record {
  knows = λ zone. true;
  parts = λ zone t.
      let s = (t + offset) / 1000 in
      record { day = s / 86400; hour = s % 86400 / 3600; minute = s % 3600 / 60; second = s % 60 };
}

abbrev ten_hours : ℕ
ten_hours = 36000000

abbrev brisbane : Intl
brisbane = ahead_by ten_hours

abbrev zone : Text
zone = b'B' ∷ []

hour_in_day : (s : ℕ) → (s % 86400 / 3600 == 24) ≡ false
hour_in_day s = ground arith

clock_sum :
    (s : ℕ)
    → s / 86400 * 86400000 + s % 86400 / 3600 * 3600000 + s % 3600 / 60 * 60000 + s % 60 * 1000
      ≡ s * 1000
clock_sum s = omega arith

shown : (t : ℕ) → t / 1000 * 1000 + ten_hours ≡ (t + ten_hours) / 1000 * 1000
shown t = omega arith

ahead : (a b c : ℕ) → b + c ≡ a → sub_ℕ a b ≡ pos c
ahead a b c h = ground arith

brisbane-KeepsOffset : KeepsOffset brisbane zone (pos ten_hours) 0
unfolding offset_at
brisbane-KeepsOffset = record {
  steady = λ t late.
      rw (hour_in_day ((t + ten_hours) / 1000), clock_sum ((t + ten_hours) / 1000))
        (ahead ((t + ten_hours) / 1000 * 1000) (t / 1000 * 1000) ten_hours (shown t));
  east_bound = omega arith;
  west_bound = omega arith;
}

-- 2025-06-02, a Monday, and 16:00 on it.
abbrev monday : ℕ
monday = 100020241 * ms_per_day

abbrev four : ℕ
four = 960

instant_for_local_time_lem_example :
    instant_for_local_time brisbane zone monday four
    ≡ earlier_by (naive_instant monday four) (pos ten_hours)
instant_for_local_time_lem_example =
    instant_for_local_time_lem brisbane brisbane-KeepsOffset monday four (omega arith)

next_occurrence-first_example :
    (day : ResolvedDay) × (next_occurrence brisbane zone weekly monday ≡ some day)
    × FirstStop brisbane zone weekly monday 0 day
next_occurrence-first_example =
    next_occurrence-first brisbane brisbane-KeepsOffset weekly monday weekly-IsValidSchedule
      (omega arith)

due_days_iff_example :
    let day = resolve_day brisbane zone weekly monday in
    In day (due_days brisbane zone weekly (monday + 10000000)) ↔ (
      (date : ℕ) × (utc_midnight date ≡ date)
      × (0 + ms_per_day ≤ date)
      × IsDueDate brisbane zone weekly (monday + 10000000) date
      × (resolve_day brisbane zone weekly date ≡ day))
due_days_iff_example =
    due_days_iff brisbane brisbane-KeepsOffset weekly (monday + 10000000)
      (resolve_day brisbane zone weekly monday) weekly-IsValidSchedule (omega arith)

calendar_tests :
    (iso_weekday_of monday ≡ 1)
    × (collects_on weekly (monday + ms_per_day) ≡ false)
    × (day_word_is_tomorrow brisbane zone (monday + 20 * 3600000) monday ≡ true)
    × (assert_valid_timezone brisbane zone ≡ ok tt)
    × (resolve_donor_timezone (some (b' ' ∷ [])) ≡ none)
unfolding iso_weekday_of collects_on day_word_is_tomorrow assert_valid_timezone
    resolve_donor_timezone local_date_at offset_at is_space
calendar_tests = (refl, refl, refl, refl, refl)
