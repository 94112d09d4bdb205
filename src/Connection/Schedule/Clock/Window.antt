-- ===== src/Connection/Schedule/Clock/Window.antt =====
-- connection.schedule.ts: when two pickup windows overlap.
use svforb.Common.{
  ℕ, suc, ◌+◌, ◌*◌, ◌≤◌, ◌<◌, ◌≡◌, ◌↔◌, ◌⊎◌, List, [], ◌∷◌, true, false, arith, any, includes, In,
  includes→In, In→includes, Bool-cases, inl, inr, max, leb, ltb, refl, if◌then◌else◌,
}
use svforb.Connection.Schedule.Clock.{
  PickupWindow, minutes_in_day, spans, schedules_overlap, spans_meet,
}

-- The minutes of a day that the window takes, of the evening and of the early morning alike.
abbrev pub Covers : PickupWindow → ℕ → Type 0
Covers w m =
    (w.window_start_minutes < w.window_end_minutes
      → (w.window_start_minutes ≤ m) × (m < w.window_end_minutes))
    × (w.window_end_minutes ≤ w.window_start_minutes
        → ((w.window_start_minutes ≤ m) × (m < minutes_in_day)) ⊎ (m < w.window_end_minutes))

pub shared_day : (xs ys : List ℕ) → any (λ d. includes ys d) xs ≡ true → (d : ℕ) × In d xs × In d ys
shared_day [] ys h = absurd (cc)
shared_day (x ∷ xs) ys h = elim (Bool-cases (includes ys x)) [
  | inl here ↦ (x, inl (ground arith), includes→In ys x here)
  | inr later ↦ let (d, in_xs, in_ys) = shared_day xs ys (ground arith) in (d, inr in_xs, in_ys)
]

pub shared_day_test :
    (xs ys : List ℕ) (d : ℕ) → In d xs → In d ys → any (λ k. includes ys k) xs ≡ true
shared_day_test [] ys d h k = absurd h
shared_day_test (x ∷ xs) ys d (inl e) k = ground (arith, In→includes ys d k)
shared_day_test (x ∷ xs) ys d (inr h) k = ground (arith, shared_day_test xs ys d h k)

-- If neither or each window runs past midnight, the later start is in both.
meet_minute :
    (a b : PickupWindow)
    → a.window_start_minutes < minutes_in_day
    → b.window_start_minutes < minutes_in_day
    → any (λ s. any (λ t. spans_meet s t) (spans b)) (spans a) ≡ true
    → (m : ℕ) × (m < minutes_in_day) × Covers a m × Covers b m
unfolding spans
meet_minute a b pa pb h = elim (Bool-cases (leb a_end a_start)) [
  | inl night_a ↦ elim (Bool-cases (leb b_end b_start)) [
    | inl night_b ↦ (max a_start b_start, ground arith, ground arith, ground arith)
    | inr day_b ↦
        let h' = rw (night_a, day_b) at h in
        elim (Bool-cases (ltb b_start a_end)) [
          | inl early ↦ (b_start, ground arith, ground arith, ground arith)
          | inr late ↦ (max a_start b_start, ground arith, ground arith, ground arith)
        ]
  ]
  | inr day_a ↦ elim (Bool-cases (leb b_end b_start)) [
    | inl night_b ↦
        let h' = rw (day_a, night_b) at h in
        elim (Bool-cases (ltb a_start b_end)) [
          | inl early ↦ (a_start, ground arith, ground arith, ground arith)
          | inr late ↦ (max a_start b_start, ground arith, ground arith, ground arith)
        ]
    | inr day_b ↦
        let h' = rw (day_a, day_b) at h in
        (max a_start b_start, ground arith, ground arith, ground arith)
  ]
]
  where
    open a use {window_start_minutes as a_start, window_end_minutes as a_end}
    open b use {window_start_minutes as b_start, window_end_minutes as b_end}

overlap_sound :
    (a b : PickupWindow)
    → a.window_start_minutes < minutes_in_day
    → b.window_start_minutes < minutes_in_day
    → schedules_overlap a b ≡ true
    → ((d : ℕ) × In d a.days_of_week × In d b.days_of_week)
      × ((m : ℕ) × (m < minutes_in_day) × Covers a m × Covers b m)
unfolding schedules_overlap
overlap_sound a b pa pb h =
    (shared_day a.days_of_week b.days_of_week (ground arith), meet_minute a b pa pb (ground arith))

meet_test :
    (a b : PickupWindow) (m : ℕ)
    → m < minutes_in_day
    → Covers a m
    → Covers b m
    → any (λ s. any (λ t. spans_meet s t) (spans b)) (spans a) ≡ true
unfolding spans
meet_test a b m h ca cb = ground arith

-- Two schedules whose windows start within the day overlap exactly when they share a collection
-- day and some minute of the day that both windows cover.
pub schedules_overlap_iff :
    (a b : PickupWindow)
    → a.window_start_minutes < minutes_in_day
    → b.window_start_minutes < minutes_in_day
    → (schedules_overlap a b ≡ true) ↔ (
        ((d : ℕ) × In d a.days_of_week × In d b.days_of_week)
        × ((m : ℕ) × (m < minutes_in_day) × Covers a m × Covers b m))
unfolding schedules_overlap
schedules_overlap_iff a b pa pb = (
  overlap_sound a b pa pb,
  λ ((d, in_a, in_b), (m, h, ca, cb)).
      ground
        (arith, shared_day_test a.days_of_week b.days_of_week d in_a in_b, meet_test a b m h ca cb),
)

-- The minutes of a week, counted from Monday midnight, at which a schedule collects: a window that
-- runs past midnight ends on the following day.
abbrev pub CollectsAt : PickupWindow → ℕ → Type 0
CollectsAt w t =
    (d : ℕ) × In d w.days_of_week
    × (d * minutes_in_day + w.window_start_minutes ≤ t)
    × (t
        < d * minutes_in_day
          + (if leb w.window_end_minutes w.window_start_minutes
              then minutes_in_day + w.window_end_minutes
              else w.window_end_minutes))

-- A window past midnight on one day and an early window on the next day only collect at the same
-- time, and are not reported as overlapping.
pub overlap_misses_midnight :
    (a b : PickupWindow) (d : ℕ)
    → a.days_of_week ≡ d ∷ []
    → b.days_of_week ≡ suc d ∷ []
    → a.window_end_minutes ≤ a.window_start_minutes
    → a.window_start_minutes < minutes_in_day
    → b.window_start_minutes < b.window_end_minutes
    → b.window_start_minutes < a.window_end_minutes
    → (schedules_overlap a b ≡ false) × ((t : ℕ) × CollectsAt a t × CollectsAt b t)
unfolding schedules_overlap
overlap_misses_midnight a b d ea eb night day early meet = (
  ground arith,
  (
    suc d * minutes_in_day + b.window_start_minutes,
    (d, rw ea (inl refl), ground arith, ground arith),
    (suc d, rw eb (inl refl), ground arith, ground arith),
  ),
)
