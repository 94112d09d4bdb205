-- ===== src/Connection/Schedule/Calendar.antt =====
-- connection.schedule.ts: instants. An instant is a number of milliseconds since the earliest
-- date that a JavaScript `Date` holds, 100,000,000 days before 1970-01-01: day 0 of this count has
-- `getUTCDay()` 2. A difference that would fall before that date is 0 here (and an invalid date in
-- the program). The platform's time zone database is the parameter `Intl`.
pub mod Instant
pub mod Resolve
pub mod Occurrence
pub mod Due
use svforb.Common.{
  ℕ, zero, suc, ◌+◌, ◌*◌, ◌-◌, ◌/◌, ◌%◌, min, String, Bool, true, false, not, ◌&&◌, Option, none,
  some, List, [], ◌∷◌, ◌==◌, ltb, leb, if◌then◌else◌, Result, throw_if, bad_request, includes,
  get_or,
}
use svforb.Common.Int.{ℤ, pos_part, neg_part, sub_ℕ}
use svforb.Connection.Schedule.Clock.{
  Text, minutes_in_day, list_by_minutes, charity_confirm_minutes, trim, ScheduleInput,
}

abbrev pub ms_per_minute : ℕ
ms_per_minute = 60000

abbrev pub ms_per_day : ℕ
ms_per_day = minutes_in_day * ms_per_minute

-- `formatToParts`: the calendar date as the number of its day, and the time of day.
pub record WallClock : Type 0 where
  pub day : ℕ
  pub hour : ℕ
  pub minute : ℕ
  pub second : ℕ

-- `Intl.DateTimeFormat`: which zones it knows, and what it prints for an instant.
pub record Intl : Type 0 where
  pub knows : Text → Bool
  pub parts : Text → ℕ → WallClock

-- `Date.UTC` of a calendar date, an hour, a minute and a second
abbrev pub date_utc : ℕ → ℕ → ℕ → ℕ → ℕ
date_utc day hour minute second =
    day * ms_per_day + hour * 3600000 + minute * ms_per_minute + second * 1000

-- An instant moved later or earlier by a signed number of milliseconds.
abbrev pub later_by : ℕ → ℤ → ℕ
later_by t z = t + pos_part z - neg_part z

abbrev pub earlier_by : ℕ → ℤ → ℕ
earlier_by t z = t + neg_part z - pos_part z

-- `localDate.getTime() + k * MINUTES_IN_DAY * 60000`
abbrev pub add_days : ℕ → ℕ → ℕ
add_days date k = date + k * ms_per_day

-- `Date.UTC(d.getUTCFullYear(), d.getUTCMonth(), d.getUTCDate())`
abbrev pub utc_midnight : ℕ → ℕ
utc_midnight t = t / ms_per_day * ms_per_day

-- ISO weekday of a UTC-midnight date: `getUTCDay()` with Sunday as 7
unfoldable pub iso_weekday_of : ℕ → ℕ
iso_weekday_of date = let day = (date / ms_per_day + 2) % 7 in if day == 0 then 7 else day

unfoldable pub collects_on : ScheduleInput → ℕ → Bool
unfolding iso_weekday_of
collects_on s date = includes s.days_of_week (iso_weekday_of date)

pub record ResolvedDay : Type 0 where
  pub scheduled_date : ℕ
  pub prompt_at : ℕ
  pub cutoff_at : ℕ
  pub window_start_at : ℕ
  pub window_end_at : ℕ

pub is_prompt_due : ResolvedDay → ℕ → Bool
is_prompt_due day now = leb day.prompt_at now && ltb now day.window_end_at

pub list_by_at : ℕ → ℕ
list_by_at window_start_at = window_start_at - list_by_minutes * ms_per_minute

unfoldable pub is_business_list_by_due : ℕ → ℕ → Bool
unfolding list_by_at
is_business_list_by_due window_start_at now = leb (list_by_at window_start_at) now

abbrev nonempty : Text → Option Text
nonempty [] = none
nonempty (c ∷ s) = some (c ∷ s)

-- `siteTimezone?.trim()`, and null for the empty text
unfoldable pub resolve_donor_timezone : Option Text → Option Text
unfolding trim
resolve_donor_timezone none = none
resolve_donor_timezone (some zone) = nonempty (trim zone)

-- The instant as UTC would read the wall clock.
abbrev pub naive_instant : ℕ → ℕ → ℕ
naive_instant date minutes = utc_midnight date + minutes * ms_per_minute

abbrev has_days : List ℕ → Bool
has_days [] = false
has_days (d ∷ ds) = true

module _ (intl : Intl) where
  unfoldable pub assert_valid_timezone : Text → Result (Unit {0})
  assert_valid_timezone zone =
      throw_if (not (intl.knows zone)) (bad_request "is not a known timezone")

  -- The zone's offset from UTC at an instant, in milliseconds.
  unfoldable pub offset_at : Text → ℕ → ℤ
  offset_at zone t =
      let p = intl.parts zone t in
      let hour = if p.hour == 24 then 0 else p.hour in
      sub_ℕ (date_utc p.day hour p.minute p.second) (t / 1000 * 1000)

  unfoldable pub local_date_at : Text → ℕ → ℕ
  local_date_at zone t = utc_midnight (later_by t (offset_at zone t))

  abbrev pub first_guess : Text → ℕ → ℕ → ℕ
  first_guess zone date minutes =
      earlier_by (naive_instant date minutes) (offset_at zone (naive_instant date minutes))

  unfoldable pub instant_for_local_time : Text → ℕ → ℕ → ℕ
  instant_for_local_time zone date minutes =
      earlier_by (naive_instant date minutes) (offset_at zone (first_guess zone date minutes))

  unfoldable pub resolve_day : Text → ScheduleInput → ℕ → ResolvedDay
  resolve_day zone s date =
      let start_at = instant_for_local_time zone date s.window_start_minutes in
      let end_date =
        if leb s.window_end_minutes s.window_start_minutes then add_days date 1 else date in
      let end_at = instant_for_local_time zone end_date s.window_end_minutes in
      let cutoff = min s.cutoff_minutes charity_confirm_minutes in
      record {
        scheduled_date = date;
        prompt_at = start_at - s.lead_time_minutes * ms_per_minute;
        cutoff_at = start_at - cutoff * ms_per_minute;
        window_start_at = start_at;
        window_end_at = end_at;
      }

  -- The loop of `nextOccurrence`, with `rounds` days left to look at from `offset` days ahead.
  next_from : Text → ScheduleInput → ℕ → ℕ → ℕ → Option ResolvedDay
  next_from zone s from zero offset = none
  next_from zone s from (suc rounds) offset =
      let rest = next_from zone s from rounds (offset + 1) in
      let date = add_days (local_date_at zone from) offset in
      let day = resolve_day zone s date in
      if not (collects_on s date)
      then rest
      else if ltb from day.window_end_at
      then some day
      else rest

  pub next_occurrence : Text → ScheduleInput → ℕ → Option ResolvedDay
  unfolding next_from
  next_occurrence zone s from =
      if not (has_days s.days_of_week) then none else next_from zone s from 8 0

  -- The loop of `dueDays` over the dates that it looks at.
  pub due_among : Text → ScheduleInput → ℕ → List ℕ → List ResolvedDay
  due_among zone s now [] = []
  due_among zone s now (date ∷ dates) =
      let rest = due_among zone s now dates in
      let day = resolve_day zone s date in
      if not (collects_on s date) then rest else if is_prompt_due day now then day ∷ rest else rest

  -- Yesterday, today and tomorrow on the site's calendar.
  abbrev pub dates_around : Text → ℕ → List ℕ
  dates_around zone now =
      let today = local_date_at zone now in (today - ms_per_day) ∷ today ∷ add_days today 1 ∷ []

  pub due_days : Text → ScheduleInput → ℕ → List ResolvedDay
  unfolding due_among
  due_days zone s now = due_among zone s now (dates_around zone now)

  -- "tomorrow" if true, "today" if false
  unfoldable pub day_word_is_tomorrow : Text → ℕ → ℕ → Bool
  day_word_is_tomorrow zone window_start_at now =
      ltb (local_date_at zone now) (local_date_at zone window_start_at)
