-- ===== src/Connection/Service/Schedules.antt =====
-- connection.service.ts: the sorting of the days of a schedule changes neither what overlaps with
-- it nor whether it is accepted.
use svforb.Common.{
  ℕ, suc, ◌≡◌, refl, Bool, true, ◌||◌, List, [], ◌∷◌, ◌==◌, ltb, any, includes, length,
  if◌then◌else◌, arith, ok, Bool-cases, inl, inr,
}
use svforb.Connection.Schedule.Clock.{
  ScheduleInput, PickupWindow, set_size, validate_schedule, schedules_overlap, spans, spans_meet,
}
use svforb.Connection.Schedule.Clock.Window.{shared_day, shared_day_test}
use svforb.Connection.Service.{insert, sort, sort_days, pickup_window}

any-insert : (p : ℕ → Bool) (d : ℕ) (xs : List ℕ) → any p (insert d xs) ≡ (p d || any p xs)
unfolding insert
any-insert p d [] = refl
any-insert p d (x ∷ xs) = ground (arith, any-insert p d xs)

pub any-sort : (p : ℕ → Bool) (xs : List ℕ) → any p (sort xs) ≡ any p xs
unfolding sort
any-sort p [] = refl
any-sort p (x ∷ xs) = ground (arith, any-insert p x (sort xs), any-sort p xs)

length-insert : (d : ℕ) (xs : List ℕ) → length (insert d xs) ≡ suc (length xs)
unfolding insert
length-insert d [] = refl
length-insert d (x ∷ xs) = ground (arith, length-insert d xs)

length-sort : (xs : List ℕ) → length (sort xs) ≡ length xs
unfolding sort
length-sort [] = refl
length-sort (x ∷ xs) = ground (arith, length-insert x (sort xs), length-sort xs)

set_size-insert :
    (d : ℕ) (xs : List ℕ)
    → set_size (insert d xs) ≡ (if includes xs d then set_size xs else suc (set_size xs))
unfolding insert set_size
set_size-insert d [] = refl
set_size-insert d (x ∷ xs) = ground (arith, set_size-insert d xs, any-insert (λ y. y == x) d xs)

set_size-sort : (xs : List ℕ) → set_size (sort xs) ≡ set_size xs
unfolding sort set_size
set_size-sort [] = refl
set_size-sort (x ∷ xs) =
    ground (arith, set_size-insert x (sort xs), set_size-sort xs, any-sort (λ y. y == x) xs)

pub validate_schedule-sort :
    (s : ScheduleInput) → validate_schedule s ≡ ok tt → validate_schedule (sort_days s) ≡ ok tt
unfolding validate_schedule sort
validate_schedule-sort s h = ground (
  arith,
  any-sort (λ d. ltb d 1 || ltb 7 d) s.days_of_week,
  set_size-sort s.days_of_week,
  length-sort s.days_of_week,
)

shares_sym :
    (xs ys : List ℕ) → any (λ d. includes ys d) xs ≡ true → any (λ d. includes xs d) ys ≡ true
shares_sym xs ys h =
    let (d, in_xs, in_ys) = shared_day xs ys h in shared_day_test ys xs d in_ys in_xs

shares_comm : (xs ys : List ℕ) → any (λ d. includes ys d) xs ≡ any (λ d. includes xs d) ys
shares_comm xs ys = elim (Bool-cases (any (λ d. includes ys d) xs)) [
  | inl shared ↦ ground (arith, shares_sym xs ys shared)
  | inr apart ↦ elim (Bool-cases (any (λ d. includes xs d) ys)) [
    | inl shared ↦ ground (arith, shares_sym ys xs shared)
    | inr apart' ↦ ground arith
  ]
]

spans_comm :
    (a b : PickupWindow)
    → any (λ s. any (λ t. spans_meet s t) (spans b)) (spans a)
      ≡ any (λ s. any (λ t. spans_meet s t) (spans a)) (spans b)
unfolding spans
spans_comm a b = ground arith

pub schedules_overlap_comm : (a b : PickupWindow) → schedules_overlap a b ≡ schedules_overlap b a
unfolding schedules_overlap
schedules_overlap_comm a b =
    ground (arith, spans_comm a b, shares_comm a.days_of_week b.days_of_week)

shares-sort : (xs ys : List ℕ) → any (λ d. includes ys d) (sort xs) ≡ any (λ d. includes ys d) xs
shares-sort xs ys = any-sort (λ d. includes ys d) xs

pub schedules_overlap-sort :
    (s : ScheduleInput) (b : PickupWindow)
    → schedules_overlap (pickup_window (sort_days s)) b ≡ schedules_overlap (pickup_window s) b
unfolding schedules_overlap spans sort
schedules_overlap-sort s b = ground (arith, shares-sort s.days_of_week b.days_of_week)
