-- ===== src/Enterprise/Pagination.antt =====
-- enterprise.pagination.ts: pages and periods of the portal's tables. Numbers are whole; instants
-- are milliseconds, and what a text or the local calendar gives is an argument.
pub mod Pages
mod Tests
use svforb.Common.{
  ℕ, ◌+◌, ◌*◌, ◌-◌, ◌/◌, min, Bool, true, false, not, ◌&&◌, ◌||◌, String, Option, none, some, List,
  [], ◌∷◌, ◌==◌, ltb, leb, if◌then◌else◌, Result, ok, err, ◌>>=◌, ◌>>◌, throw_if, or_throw,
  bad_request, includes, get_or,
}
use svforb.Common.Int.{ℤ, pos, pos_part}

abbrev pub page_sizes : List ℕ
page_sizes = 25 ∷ 50 ∷ 100 ∷ []

abbrev pub default_page_size : ℕ
default_page_size = 25

pub record PageRequest : Type 0 where
  pub page : ℕ
  pub page_size : ℕ
  pub skip : ℕ
  pub take : ℕ

abbrev max_1 : ℕ → ℕ
max_1 n = if ltb n 1 then 1 else n

abbrev is_size : ℤ → Bool
is_size (pos n) = includes page_sizes n
is_size _ = false

pub page_request : Option ℤ → Option ℤ → Result PageRequest
page_request page page_size =
    let p = max_1 (pos_part (get_or page (pos 1))) in
    let size = get_or page_size (pos default_page_size) in
    if not (is_size size)
    then err (bad_request "pageSize must be one of 25, 50, 100")
    else ok (record {
      page = p;
      page_size = pos_part size;
      skip = (p - 1) * pos_part size;
      take = pos_part size;
    })

-- interface Paginated
pub record Paginated {ℓ} (A : Type ℓ) : Type ℓ where
  pub rows : List A
  pub page : ℕ
  pub page_size : ℕ
  pub total : ℕ
  pub total_pages : ℕ
  pub from : ℕ
  pub to : ℕ

-- `Math.ceil(a / b)`
abbrev pub ceil_div : ℕ → ℕ → ℕ
ceil_div a b = (a + b - 1) / b

pub paginate {ℓ} : {A : Type ℓ} → List A → ℕ → PageRequest → Paginated A
paginate rows total req = record {
  rows = rows;
  page = req.page;
  page_size = req.page_size;
  total = total;
  total_pages = if total == 0 then 0 else ceil_div total req.page_size;
  from = if total == 0 then 0 else req.skip + 1;
  to = min (req.skip + req.take) total;
}

-- The presets of `PERIOD_DAYS`; any other text is no preset.
pub data Period : Type 0 where
  days_7 days_30 days_90 other : Period

abbrev period_days : Period → Option ℕ
period_days days_7 = some 7
period_days days_30 = some 30
period_days days_90 = some 90
period_days other = none

-- A range of instants.
pub record Range : Type 0 where
  pub from : ℕ
  pub to : ℕ

module _ (now : ℕ) (days_before : ℕ → ℕ → ℕ) where
  abbrev preset : Option Period → Result Range
  preset period = do
    days ←
        or_throw (period_days (get_or period days_30))
          (bad_request "period must be one of 7d, 30d, 90d")
    ok (record { from = days_before days now; to = now })

  abbrev explicit : Option ℕ → Option ℕ → Result Range
  explicit from to = do
    f ← or_throw from (bad_request "from and to must be valid dates")
    t ← or_throw to (bad_request "from and to must be valid dates")
    throw_if (ltb t f) (bad_request "from must not be after to")
    ok (record { from = f; to = t })

  -- A text that is given is an instant, or no valid date; `days_before` is `setDate` moved back.
  pub resolve_period : Option Period → Option (Option ℕ) → Option (Option ℕ) → Result Range
  resolve_period period (some f) (some t) = explicit f t
  resolve_period period none to = preset period
  resolve_period period (some f) none = preset period

pub previous_period : Range → Option Range
previous_period r =
    if leb r.to r.from then none else some (record { from = r.from - (r.to - r.from); to = r.from })
