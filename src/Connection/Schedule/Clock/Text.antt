-- ===== src/Connection/Schedule/Clock/Text.antt =====
-- connection.schedule.ts: times of day as text.
use mathlib.Core.Path.{subst}
use svforb.Common.{
  ℕ, zero, suc, ◌+◌, ◌*◌, ◌/◌, ◌%◌, ◌<◌, ◌≡◌, refl, [], ◌∷◌, false, some, ok, arith,
}
use svforb.Connection.Schedule.Clock.{
  Text, minutes_in_day, is_space, trim_start, trim, match_time, parse_local_time, decimal,
  pad_start_two, two_digits, format_local_time,
}

-- Below 100 a number has two digits after padding.
pad-decimal : (n : ℕ) → n < 100 → pad_start_two (decimal n) ≡ (b'0' + n / 10) ∷ (b'0' + n % 10) ∷ []
unfolding decimal
pad-decimal zero h = refl
pad-decimal (suc n) h = ground arith

trim_start_lem : (a : ℕ) (s : Text) → is_space a ≡ false → trim_start (a ∷ s) ≡ a ∷ s
unfolding trim_start
trim_start_lem a s p = rw p

trim_five :
    (a b c d e : ℕ)
    → is_space a ≡ false
    → is_space e ≡ false
    → trim (a ∷ b ∷ c ∷ d ∷ e ∷ []) ≡ a ∷ b ∷ c ∷ d ∷ e ∷ []
unfolding trim
trim_five a b c d e p q =
    rw (trim_start_lem a (b ∷ c ∷ d ∷ e ∷ []) p, trim_start_lem e (d ∷ c ∷ b ∷ a ∷ []) q)

digit-not-space : (n : ℕ) → n < 10 → is_space (b'0' + n) ≡ false
unfolding is_space
digit-not-space n h = ground arith

format_local_time_digits :
    (h m : ℕ)
    → h < 24
    → m < 60
    → format_local_time (h * 60 + m)
      ≡ (b'0' + h / 10) ∷ (b'0' + h % 10) ∷ b':' ∷ (b'0' + m / 10) ∷ (b'0' + m % 10) ∷ []
unfolding format_local_time
format_local_time_digits h m p q =
    let hour : (h * 60 + m) / 60 ≡ h = omega arith in
    let minute : (h * 60 + m) % 60 ≡ m = omega arith in
    rw (hour, minute, pad-decimal h (omega arith), pad-decimal m (omega arith)) refl

match_time_digits :
    (h m : ℕ)
    → h < 24
    → m < 60
    → match_time ((b'0' + h / 10) ∷ (b'0' + h % 10) ∷ b':' ∷ (b'0' + m / 10) ∷ (b'0' + m % 10) ∷ [])
      ≡ some (h * 60 + m)
unfolding match_time
match_time_digits h m p q = ground arith

parse-format_digits :
    (h m : ℕ)
    → h < 24
    → m < 60
    → parse_local_time (format_local_time (h * 60 + m)) ≡ ok (h * 60 + m)
unfolding parse_local_time
parse-format_digits h m p q = rw (
  format_local_time_digits h m p q,
  trim_five (b'0' + h / 10) (b'0' + h % 10) b':' (b'0' + m / 10) (b'0' + m % 10)
      (digit-not-space (h / 10) (omega arith)) (digit-not-space (m % 10) (omega arith)),
  match_time_digits h m p q,
)

-- Every time of day comes back from its text.
pub parse-format :
    (minutes : ℕ)
    → minutes < minutes_in_day
    → parse_local_time (format_local_time minutes) ≡ ok minutes
parse-format n h =
    let e : n / 60 * 60 + n % 60 ≡ n = omega arith in
    subst (λ k. parse_local_time (format_local_time k) ≡ ok k) e
      (parse-format_digits (n / 60) (n % 60) (omega arith) (omega arith))

-- What the pattern says of the five characters that it matches.
match_time_facts :
    (a b c d e m : ℕ)
    → match_time (a ∷ b ∷ c ∷ d ∷ e ∷ []) ≡ some m
    → let h = two_digits a b in
      let n = two_digits d e in
      (h < 24)
      × (n < 60)
      × (h * 60 + n ≡ m)
      × (b'0' + h / 10 ≡ a)
      × (b'0' + h % 10 ≡ b)
      × (b':' ≡ c)
      × (b'0' + n / 10 ≡ d)
      × (b'0' + n % 10 ≡ e)
unfolding match_time
match_time_facts a b c d e m h = ground arith

match_time_sound :
    (t : Text) (m : ℕ) → match_time t ≡ some m → (m < minutes_in_day) × (format_local_time m ≡ t)
unfolding match_time
match_time_sound (a ∷ b ∷ c ∷ d ∷ e ∷ []) m h =
    let (p, q, total, ea, eb, ec, ed, ee) = match_time_facts a b c d e m h in
    (
      omega arith,
      cc (
        total,
        format_local_time_digits (two_digits a b) (two_digits d e) p q,
        ea,
        eb,
        ec,
        ed,
        ee,
      ),
    )
match_time_sound t m h = absurd (cc)

-- What parses is a time of day, and printing it gives the text back without its outer spaces.
pub format-parse :
    (value : Text) (minutes : ℕ)
    → parse_local_time value ≡ ok minutes
    → (minutes < minutes_in_day) × (format_local_time minutes ≡ trim value)
unfolding parse_local_time
format-parse value n h = match_time_sound (trim value) n (ground arith)
