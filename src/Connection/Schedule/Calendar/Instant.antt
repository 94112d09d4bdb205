-- ===== src/Connection/Schedule/Calendar/Instant.antt =====
-- connection.schedule.ts: the instant of a wall-clock time, and the calendar date of an instant.
use svforb.Common.{ℕ, ◌+◌, ◌≤◌, ◌<◌, ◌≡◌, refl, ap, ◌∙◌, arith}
use svforb.Common.Int.{ℤ, neg_part, pos_part}
use svforb.Connection.Schedule.Clock.{Text, minutes_in_day}
use svforb.Connection.Schedule.Calendar.{
  Intl, later_by, earlier_by, utc_midnight, offset_at, local_date_at, naive_instant, first_guess,
  instant_for_local_time, ms_per_day,
}

module _ (intl : Intl) where
  instant_by_guess :
      (zone : Text) (date minutes : ℕ)
      → instant_for_local_time intl zone date minutes
        ≡ earlier_by
            (naive_instant date minutes)
            (offset_at intl zone (first_guess intl zone date minutes))
  unfolding instant_for_local_time
  instant_by_guess zone date minutes = refl

  -- If the offset at the first guess is the one in force at the result, then the wall clock shows
  -- the time that was asked for at the result (as long as the result is not before the first date).
  pub instant_for_local_time-wall :
      (zone : Text) (date minutes : ℕ)
      → let t = instant_for_local_time intl zone date minutes in
        offset_at intl zone (first_guess intl zone date minutes) ≡ offset_at intl zone t
        → pos_part (offset_at intl zone t) ≤ naive_instant date minutes
        → later_by t (offset_at intl zone t) ≡ naive_instant date minutes
  instant_for_local_time-wall zone date minutes same room =
      let e =
        instant_by_guess zone date minutes ∙ ap (earlier_by (naive_instant date minutes)) same in
      omega arith

  -- A zone that keeps one offset, of less than a day, from the instant `low` on.
  pub record KeepsOffset (zone : Text) (offset : ℤ) (low : ℕ) : Type 0 where
    pub steady : (t : ℕ) → low ≤ t → offset_at intl zone t ≡ offset
    pub east_bound : pos_part offset < ms_per_day
    pub west_bound : neg_part offset < ms_per_day

  module _ {zone : Text} {offset : ℤ} {low : ℕ} (k : KeepsOffset zone offset low) where
    -- In a zone with one offset, the instant of a wall-clock time is the UTC reading less the offset.
    pub instant_for_local_time_lem :
        (date minutes : ℕ)
        → low + ms_per_day ≤ naive_instant date minutes
        → instant_for_local_time intl zone date minutes
          ≡ earlier_by (naive_instant date minutes) offset
    unfolding instant_for_local_time
    instant_for_local_time_lem date minutes late =
        let first : offset_at intl zone (naive_instant date minutes) ≡ offset =
          k.steady _ (omega arith) in
        let bound = k.east_bound in
        let second : offset_at intl zone (earlier_by (naive_instant date minutes) offset) ≡ offset =
          k.steady _ (omega arith) in
        rw (first, second) refl

    pub local_date_at_lem :
        (t : ℕ) → low ≤ t → local_date_at intl zone t ≡ utc_midnight (later_by t offset)
    unfolding local_date_at
    local_date_at_lem t late = rw (k.steady t late) refl

    -- In a zone with one offset since two days before, a time of day on a date is an instant of
    -- that date.
    pub local_date_at-instant :
        (date minutes : ℕ)
        → low + ms_per_day + ms_per_day ≤ naive_instant date minutes
        → minutes < minutes_in_day
        → local_date_at intl zone (instant_for_local_time intl zone date minutes)
          ≡ utc_midnight date
    local_date_at-instant date minutes late h =
        let east = k.east_bound in
        let west = k.west_bound in
        rw
          (
            instant_for_local_time_lem date minutes (omega arith),
            local_date_at_lem (earlier_by (naive_instant date minutes) offset) (omega arith),
          )
          (omega arith)
