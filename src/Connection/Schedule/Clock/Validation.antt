-- ===== src/Connection/Schedule/Clock/Validation.antt =====
-- connection.schedule.ts: what `validateSchedule` accepts.
use svforb.Common.{
  ℕ, ◌≤◌, ◌<◌, ◌≡◌, ◌≢◌, ◌↔◌, List, [], ◌∷◌, false, ◌||◌, arith, ok, ltb, any, includes, length,
  All, In, includes→In, In→includes, Bool-cases, inl, inr,
}
use svforb.Connection.Schedule.Clock.{ScheduleInput, minutes_in_day, set_size, validate_schedule}

-- No entry is listed twice.
abbrev pub NoRepeat : List ℕ → Type 0
NoRepeat [] = Unit
NoRepeat (x ∷ xs) = (¬ In x xs) × NoRepeat xs

set_size-le : (xs : List ℕ) → set_size xs ≤ length xs
unfolding set_size
set_size-le [] = omega arith
set_size-le (x ∷ xs) = ground (arith, set_size-le xs)

set_size_full : (xs : List ℕ) → set_size xs ≡ length xs → NoRepeat xs
unfolding set_size
set_size_full [] h = tt
set_size_full (x ∷ xs) h = elim (Bool-cases (includes xs x)) [
  | inl seen ↦ absurd (ground (arith, set_size-le xs))
  | inr new ↦ (λ m. ground (arith, In→includes xs x m), set_size_full xs (ground arith))
]

set_size_of_NoRepeat : (xs : List ℕ) → NoRepeat xs → set_size xs ≡ length xs
unfolding set_size
set_size_of_NoRepeat [] h = omega arith
set_size_of_NoRepeat (x ∷ xs) (fresh, h) = elim (Bool-cases (includes xs x)) [
  | inl seen ↦ absurd (fresh (includes→In xs x seen))
  | inr new ↦ ground (arith, set_size_of_NoRepeat xs h)
]

abbrev pub IsWeekday : ℕ → Type 0
IsWeekday d = (1 ≤ d) × (d ≤ 7)

weekdays_of_test : (xs : List ℕ) → any (λ d. ltb d 1 || ltb 7 d) xs ≡ false → All IsWeekday xs
weekdays_of_test [] h = tt
weekdays_of_test (x ∷ xs) h = (ground arith, weekdays_of_test xs (ground arith))

test_of_weekdays : (xs : List ℕ) → All IsWeekday xs → any (λ d. ltb d 1 || ltb 7 d) xs ≡ false
test_of_weekdays [] h = ground arith
test_of_weekdays (x ∷ xs) (w, h) = ground (arith, test_of_weekdays xs h)

pub record IsValidSchedule (s : ScheduleInput) : Type 0 where
  pub some_day : s.days_of_week ≢ []
  pub weekdays : All IsWeekday s.days_of_week
  pub distinct : NoRepeat s.days_of_week
  pub start_in_day : s.window_start_minutes < minutes_in_day
  pub end_in_day : s.window_end_minutes < minutes_in_day
  pub not_empty : s.window_start_minutes ≢ s.window_end_minutes
  pub lead_within_day : s.lead_time_minutes ≤ minutes_in_day
  pub cutoff_after_prompt : s.cutoff_minutes ≤ s.lead_time_minutes

validate_sound : (s : ScheduleInput) → validate_schedule s ≡ ok tt → IsValidSchedule s
unfolding validate_schedule
validate_sound s h = record {
  some_day = ground arith;
  weekdays = weekdays_of_test s.days_of_week (ground arith);
  distinct = set_size_full s.days_of_week (ground arith);
  start_in_day = ground arith;
  end_in_day = ground arith;
  not_empty = ground arith;
  lead_within_day = ground arith;
  cutoff_after_prompt = ground arith;
}

validate_complete : (s : ScheduleInput) → IsValidSchedule s → validate_schedule s ≡ ok tt
unfolding validate_schedule
validate_complete s v = ground (
  arith,
  test_of_weekdays s.days_of_week v.weekdays,
  set_size_of_NoRepeat s.days_of_week v.distinct,
  v.some_day,
)

-- A schedule is accepted exactly when it has a collection day, its days are distinct ISO weekdays,
-- its window starts and ends at different times of day, and the prompt comes at most a day before
-- the window and no later than the cut-off.
pub validate_schedule_iff : (s : ScheduleInput) → (validate_schedule s ≡ ok tt) ↔ IsValidSchedule s
validate_schedule_iff s = (validate_sound s, validate_complete s)
