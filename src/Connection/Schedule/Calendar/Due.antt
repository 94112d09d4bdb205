-- ===== src/Connection/Schedule/Calendar/Due.antt =====
-- connection.schedule.ts: the days whose prompt is due.
use svforb.Common.{
  ℕ, ◌+◌, ◌*◌, ◌-◌, ◌≤◌, ◌<◌, ◌≡◌, ◌↔◌, refl, arith, true, Bool-cases, inl, inr, List, [], ◌∷◌, In,
  ◌&&◌, ap, Bool, if◌then◌else◌,
}
use native.Mathlib.Decide.{ℕ_discrete}
use svforb.Common.Int.{ℤ, neg_part}
use svforb.Connection.Schedule.Clock.{Text, ScheduleInput}
use svforb.Connection.Schedule.Clock.Validation.{IsValidSchedule}
use svforb.Connection.Schedule.Calendar.{
  Intl, utc_midnight, local_date_at, later_by, ms_per_day, collects_on, resolve_day, is_prompt_due,
  ResolvedDay, due_among, due_days, dates_around,
}
use svforb.Connection.Schedule.Calendar.Instant.{KeepsOffset, local_date_at_lem}
use svforb.Connection.Schedule.Calendar.Resolve.{resolve_day_steady}

module _ (intl : Intl) (zone : Text) (s : ScheduleInput) (now : ℕ) where
  -- A date whose collection is to be prompted now.
  abbrev pub IsDueDate : ℕ → Type 0
  IsDueDate date =
      (collects_on s date ≡ true) × (is_prompt_due (resolve_day intl zone s date) now ≡ true)

  abbrev is_due : ℕ → Bool
  is_due date = collects_on s date && is_prompt_due (resolve_day intl zone s date) now

  due_among-cons :
      (date : ℕ) (dates : List ℕ)
      → due_among intl zone s now (date ∷ dates) ≡ (
          if is_due date
          then resolve_day intl zone s date ∷ due_among intl zone s now dates
          else due_among intl zone s now dates)
  unfolding due_among
  due_among-cons date dates = ground arith

  -- What a day found among `dates` tells.
  abbrev Found : List ℕ → ResolvedDay → Type 0
  Found dates day =
      (date : ℕ) × In date dates × IsDueDate date × (resolve_day intl zone s date ≡ day)

  Found-cons :
      (date : ℕ) (dates : List ℕ) (day : ResolvedDay) → Found dates day → Found (date ∷ dates) day
  Found-cons date dates day (d, listed, due, same) = (d, inr listed, due, same)

  Found-head :
      (date : ℕ) (dates : List ℕ) (day : ResolvedDay) (rest : List ResolvedDay)
      → is_due date ≡ true
      → (In day rest → Found dates day)
      → In day (resolve_day intl zone s date ∷ rest)
      → Found (date ∷ dates) day
  Found-head date dates day rest here ih (inl same) = (date, inl refl, ground arith, same)
  Found-head date dates day rest here ih (inr more) = Found-cons date dates day (ih more)

  due_among_sound :
      (dates : List ℕ) (day : ResolvedDay)
      → In day (due_among intl zone s now dates)
      → Found dates day
  due_among_sound [] day h = absurd (unfold due_among in h)
  due_among_sound (date ∷ dates) day h = elim (Bool-cases (is_due date)) [
    | inl here ↦
        Found-head date dates day (due_among intl zone s now dates) here (due_among_sound dates day)
          (rw (due_among-cons date dates, here) at h)
    | inr not_here ↦
        Found-cons date dates day
          (due_among_sound dates day (rw (due_among-cons date dates, not_here) at h))
  ]

  due_among_complete :
      (dates : List ℕ) (date : ℕ)
      → In date dates
      → IsDueDate date
      → In (resolve_day intl zone s date) (due_among intl zone s now dates)
  due_among_complete [] date h due = absurd h
  due_among_complete (d ∷ dates) date (inl e) due =
      let here : is_due d ≡ true = rw e (ground arith) in
      rw (due_among-cons d dates, here) (inl (ap (resolve_day intl zone s) e))
  due_among_complete (d ∷ dates) date (inr h) due = elim (Bool-cases (is_due d)) [
    | inl here ↦ rw (due_among-cons d dates, here) (inr (due_among_complete dates date h due))
    | inr not_here ↦ rw (due_among-cons d dates, not_here) (due_among_complete dates date h due)
  ]

module _ (intl : Intl) {zone : Text} {offset : ℤ} {low : ℕ}
    (k : KeepsOffset intl zone offset low) where
  -- A prompt at most a day ahead and a window that ends on the next date at the latest.
  due_date_bounds :
      (s : ScheduleInput) (now date : ℕ)
      → IsValidSchedule s
      → low + 3 * ms_per_day ≤ now
      → utc_midnight date ≡ date
      → low + ms_per_day ≤ date
      → is_prompt_due (resolve_day intl zone s date) now ≡ true
      → (date ≤ later_by now offset + ms_per_day) × (later_by now offset < date + 2 * ms_per_day)
  unfolding is_prompt_due
  due_date_bounds s now date v late midnight old due =
      let (starts, ends, prompts) = resolve_day_steady intl k s date (omega arith) in
      let east = k.east_bound in let west = k.west_bound in ground arith

  due_date_near :
      (s : ScheduleInput) (now date : ℕ)
      → IsValidSchedule s
      → low + 3 * ms_per_day ≤ now
      → utc_midnight date ≡ date
      → low + ms_per_day ≤ date
      → IsDueDate intl zone s now date
      → In date (dates_around intl zone now)
  due_date_near s now date v late midnight old (_, due) =
      let today = local_date_at_lem intl k now (omega arith) in
      let (below, above) = due_date_bounds s now date v late midnight old due in
      elim (ℕ_discrete (local_date_at intl zone now - ms_per_day) date) [
        | yes yesterday ↦ inl yesterday
        | no h ↦ elim (ℕ_discrete (local_date_at intl zone now) date) [
          | yes same ↦ inr (inl same)
          | no h' ↦ inr (inr (inl (omega arith)))
        ]
      ]

  around-midnight :
      (now date : ℕ)
      → low + 4 * ms_per_day ≤ now
      → In date (dates_around intl zone now)
      → (utc_midnight date ≡ date) × (low + ms_per_day ≤ date)
  around-midnight now date late near =
      let today = local_date_at_lem intl k now (omega arith) in
      let west = k.west_bound in near_cases near today west
    where
      near_cases :
          In date (dates_around intl zone now)
          → local_date_at intl zone now ≡ utc_midnight (later_by now offset)
          → neg_part offset < ms_per_day
          → (utc_midnight date ≡ date) × (low + ms_per_day ≤ date)
      near_cases (inl e) today west = omega arith
      near_cases (inr (inl e)) today west = omega arith
      near_cases (inr (inr (inl e))) today west = omega arith
      near_cases (inr (inr (inr e))) today west = absurd e

  -- In a zone with one offset since four days before, `dueDays` of a valid schedule finds every
  -- collection whose prompt is due, on whatever date it is scheduled (from a day after that
  -- offset began), and nothing else.
  pub due_days_iff :
      (s : ScheduleInput) (now : ℕ) (day : ResolvedDay)
      → IsValidSchedule s
      → low + 4 * ms_per_day ≤ now
      → In day (due_days intl zone s now) ↔ (
          (date : ℕ) × (utc_midnight date ≡ date)
          × (low + ms_per_day ≤ date)
          × IsDueDate intl zone s now date
          × (resolve_day intl zone s date ≡ day))
  unfolding due_days
  due_days_iff s now day v late = (
    λ h.
        let (date, near, due, same) =
          due_among_sound intl zone s now (dates_around intl zone now) day h in
        let (midnight, old) = around-midnight now date late near in
        (date, midnight, old, due, same),
    λ (date, midnight, old, due, same). rw (← same) (
        due_among_complete intl zone s now (dates_around intl zone now) date
          (due_date_near s now date v (omega arith) midnight old due) due),
  )
