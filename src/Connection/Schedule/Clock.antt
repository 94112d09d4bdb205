-- ===== src/Connection/Schedule/Clock.antt =====
-- connection.schedule.ts: wall-clock times as minutes past midnight, their text, and the checks on
-- a schedule. A text is the list of its code points.
pub mod Text
pub mod Validation
pub mod Window
use svforb.Common.{
  ℕ, zero, suc, ◌+◌, ◌*◌, ◌-◌, ◌/◌, ◌%◌, Bool, true, false, not, ◌&&◌, ◌||◌, Option, none, some,
  List, [], ◌∷◌, ◌++◌, map, ◌==◌, ltb, leb, if◌then◌else◌, Result, ◌>>◌, or_throw, throw_if,
  bad_request, any, all, includes, length,
}
use mathlib.Core.List.{reverse}

abbrev pub minutes_in_day : ℕ
minutes_in_day = 24 * 60

abbrev pub prompt_lead_minutes : ℕ
prompt_lead_minutes = 4 * 60

abbrev pub list_by_minutes : ℕ
list_by_minutes = 60

abbrev pub charity_confirm_minutes : ℕ
charity_confirm_minutes = 30

abbrev pub Text : Type 0
Text = List ℕ

-- The code points that `String.prototype.trim` removes.
unfoldable pub is_space : ℕ → Bool
is_space c =
    (leb 9 c && leb c 13)
    || c == 32
    || c == 160
    || c == 0x1680
    || (leb 0x2000 c && leb c 0x200a)
    || c == 0x2028
    || c == 0x2029
    || c == 0x202f
    || c == 0x205f
    || c == 0x3000
    || c == 0xfeff

pub trim_start : Text → Text
trim_start [] = []
trim_start (c ∷ s) = let rest = trim_start s in if is_space c then rest else c ∷ s

unfoldable pub trim : Text → Text
unfolding trim_start
trim s = reverse (trim_start (reverse (trim_start s)))

-- `\d`
abbrev pub is_digit : ℕ → Bool
is_digit c = leb b'0' c && leb c b'9'

-- `[01]\d|2[0-3]`
abbrev pub is_hour : ℕ → ℕ → Bool
is_hour a b = ((a == b'0' || a == b'1') && is_digit b) || (a == b'2' && (leb b'0' b && leb b b'3'))

-- `Number` of two digits
abbrev pub two_digits : ℕ → ℕ → ℕ
two_digits a b = (a - b'0') * 10 + (b - b'0')

-- The match of `^([01]\d|2[0-3]):([0-5]\d)$`, as the minutes of its two groups.
pub match_time : Text → Option ℕ
match_time (a ∷ b ∷ c ∷ d ∷ e ∷ []) =
    if is_hour a b && c == b':' && (leb b'0' d && leb d b'5') && is_digit e
    then some (two_digits a b * 60 + two_digits d e)
    else none
match_time _ = none

unfoldable pub parse_local_time : Text → Result ℕ
unfolding trim match_time
parse_local_time value = or_throw (match_time (trim value)) (bad_request "is not a valid time")

-- `String(n)`: the fuel `n + 1` is more than the number of digits.
decimal_from : ℕ → ℕ → Text → Text
decimal_from zero n acc = acc
decimal_from (suc f) n acc =
    let rest = decimal_from f (n / 10) ((b'0' + n % 10) ∷ acc) in
    if ltb n 10 then (b'0' + n) ∷ acc else rest

pub decimal : ℕ → Text
unfolding decimal_from
decimal n = decimal_from (suc n) n []

-- `padStart(2, '0')`
abbrev pub pad_start_two : Text → Text
pad_start_two [] = b'0' ∷ b'0' ∷ []
pad_start_two (a ∷ []) = b'0' ∷ a ∷ []
pad_start_two (a ∷ b ∷ s) = a ∷ b ∷ s

unfoldable pub format_local_time : ℕ → Text
unfolding decimal
format_local_time minutes =
    pad_start_two (decimal (minutes / 60)) ++ (b':' ∷ pad_start_two (decimal (minutes % 60)))

-- `((minutes % MINUTES_IN_DAY) + MINUTES_IN_DAY) % MINUTES_IN_DAY`
abbrev pub normalized : ℕ → ℕ
normalized minutes = (minutes % minutes_in_day + minutes_in_day) % minutes_in_day

abbrev pub am_pm : Bool → Text
am_pm true = b'a' ∷ b'm' ∷ []
am_pm false = b'p' ∷ b'm' ∷ []

unfoldable pub format_clock12 : ℕ → Bool → Text
unfolding decimal
format_clock12 minutes spaced =
    let h = normalized minutes / 60 in
    let m = normalized minutes % 60 in
    let hour = if h % 12 == 0 then 12 else h % 12 in
    decimal hour
    ++ (b':'
        ∷ (pad_start_two (decimal m) ++ ((if spaced then b' ' ∷ [] else []) ++ am_pm (ltb h 12))))

-- `–`
abbrev pub en_dash : ℕ
en_dash = 0x2013

unfoldable pub format_window : ℕ → ℕ → Text
unfolding format_clock12
format_window start end = format_clock12 start false ++ (en_dash ∷ format_clock12 end false)

-- `replace(/am|pm/, '')`: the first occurrence goes.
pub drop_am_pm : Text → Text
drop_am_pm [] = []
drop_am_pm (a ∷ []) = a ∷ []
drop_am_pm (a ∷ b ∷ s) =
    let rest = drop_am_pm (b ∷ s) in if (a == b'a' || a == b'p') && b == b'm' then s else a ∷ rest

abbrev xnor : Bool → Bool → Bool
xnor true b = b
xnor false b = not b

unfoldable pub format_window_range : ℕ → ℕ → Text
unfolding format_clock12 drop_am_pm
format_window_range start end =
    let start_norm = normalized start in
    let end_norm = normalized end in
    let start_pm = leb (12 * 60) start_norm in
    let end_pm = leb (12 * 60) end_norm in
    if xnor start_pm end_pm
    then drop_am_pm (format_clock12 start_norm false)
      ++ (en_dash ∷ (drop_am_pm (format_clock12 end_norm false) ++ (b' ' ∷ am_pm (not start_pm))))
    else format_clock12 start_norm true ++ (en_dash ∷ format_clock12 end_norm true)

-- The fields of a schedule that need no time zone. Negative days, which are refused as 0 is, and
-- fractions are not represented; the DTO keeps the lead and the cut-off at 0 or more.
pub record ScheduleInput : Type 0 where
  pub days_of_week : List ℕ
  pub window_start_minutes : ℕ
  pub window_end_minutes : ℕ
  pub lead_time_minutes : ℕ
  pub cutoff_minutes : ℕ

-- `new Set(xs).size`
unfoldable pub set_size : List ℕ → ℕ
set_size [] = 0
set_size (x ∷ xs) = if includes xs x then set_size xs else suc (set_size xs)

abbrev is_empty : List ℕ → Bool
is_empty [] = true
is_empty (x ∷ xs) = false

unfoldable pub validate_schedule : ScheduleInput → Result (Unit {0})
unfolding set_size
validate_schedule s = do
  throw_if (is_empty s.days_of_week) (bad_request "Choose at least one collection day.")
  throw_if (any (λ d. ltb d 1 || ltb 7 d) s.days_of_week)
      (bad_request "Collection days must be 1 (Monday) to 7 (Sunday).")
  throw_if (not (set_size s.days_of_week == length s.days_of_week))
      (bad_request "The same collection day is listed twice.")
  throw_if (leb minutes_in_day s.window_start_minutes) (bad_request "windowStartMinutes")
  throw_if (leb minutes_in_day s.window_end_minutes) (bad_request "windowEndMinutes")
  throw_if (s.window_start_minutes == s.window_end_minutes)
      (bad_request "The pickup window cannot be zero minutes long.")
  throw_if (ltb minutes_in_day s.lead_time_minutes) (bad_request "Lead time")
  throw_if (ltb minutes_in_day s.cutoff_minutes) (bad_request "Cut-off")
  throw_if (ltb s.lead_time_minutes s.cutoff_minutes)
      (bad_request "The cut-off must fall after the business is prompted.")

-- A pickup window as `schedulesOverlap` reads it, in minutes of a day: two spans if it runs past
-- midnight.
pub record PickupWindow : Type 0 where
  pub days_of_week : List ℕ
  pub window_start_minutes : ℕ
  pub window_end_minutes : ℕ

unfoldable pub spans : PickupWindow → List (ℕ × ℕ)
spans w =
    if leb w.window_end_minutes w.window_start_minutes
    then (w.window_start_minutes, minutes_in_day) ∷ (0, w.window_end_minutes) ∷ []
    else (w.window_start_minutes, w.window_end_minutes) ∷ []

abbrev pub spans_meet : ℕ × ℕ → ℕ × ℕ → Bool
spans_meet (a_start, a_end) (b_start, b_end) = ltb a_start b_end && ltb b_start a_end

unfoldable pub schedules_overlap : PickupWindow → PickupWindow → Bool
unfolding spans
schedules_overlap a b =
    if not (any (λ d. includes b.days_of_week d) a.days_of_week)
    then false
    else any (λ s. any (λ t. spans_meet s t) (spans b)) (spans a)
