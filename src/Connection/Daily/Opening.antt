-- ===== src/Connection/Daily/Opening.antt =====
-- connection.daily.service.ts: `openDay` and `alignPromptedWindow`.
use svforb.Common.{
  ℕ, ◌≡◌, refl, ◌==◌, ◌&&◌, Bool-cases, Option-cases, some, none, inl, inr, List, [], ◌∷◌, ◌++◌,
  length, arith, not, ◌+◌, ◌≤◌, if◌then◌else◌, ◌||◌, is_some,
}
use svforb.Common.Table.{Table, modify, create}
use svforb.Prisma.{prompted, outcome_eq}
use svforb.Store.{ConnectionDay}
use svforb.Connection.Schedule.Calendar.{ResolvedDay}
use svforb.Connection.Daily.Sweeps.{
  find_day, open_day, align_prompted_window, set_window, same_window, new_day,
}

module _ (connection date : ℕ) where
  find_day-modify :
      (k : ℕ) (r : ResolvedDay) (rows : List (ℕ × ConnectionDay)) {row : ℕ × ConnectionDay}
      → find_day connection date rows ≡ some row
      → (d : ConnectionDay) × (find_day connection date (modify k (set_window r) rows)
          ≡ some (row.0, d))
  unfolding find_day
  find_day-modify k r [] e = absurd (cc)
  find_day-modify k r (row ∷ rows) {row = found} e =
      elim (Bool-cases (row.1.connection_id == connection && row.1.scheduled_date == date)) [
        | inl here ↦ elim (Bool-cases (row.0 == k)) [
          | inl it ↦ (set_window r row.1, ground arith)
          | inr other ↦ (row.1, ground arith)
        ]
        | inr further ↦ elim (Bool-cases (row.0 == k)) [
          | inl it ↦ (found.1, ground arith)
          | inr other ↦
              let (d, ih) = find_day-modify k r rows {row = found} (ground arith) in
              (d, ground arith)
        ]
      ]

  find_day-append :
      (n : ℕ) (d : ConnectionDay) (rows : List (ℕ × ConnectionDay))
      → find_day connection date rows ≡ none
      → d.connection_id ≡ connection
      → d.scheduled_date ≡ date
      → find_day connection date (rows ++ (n, d) ∷ []) ≡ some (n, d)
  unfolding find_day
  find_day-append n d [] e c s = ground arith
  find_day-append n d (row ∷ rows) e c s = ground (arith, find_day-append n d rows)

length-modify :
    (k : ℕ) (f : ConnectionDay → ConnectionDay) (rows : List (ℕ × ConnectionDay))
    → length (modify k f rows) ≡ length rows
length-modify k f [] = refl
length-modify k f (row ∷ rows) = ground (arith, length-modify k f rows)

-- What aligning does to the row that `find_day` finds, and to the number of rows.
align-find_day :
    (connection id : ℕ) (d : ConnectionDay) (r : ResolvedDay) (t : Table ConnectionDay)
    {row : ℕ × ConnectionDay}
    → find_day connection r.scheduled_date t.rows ≡ some row
    → ((d' : ConnectionDay) × (find_day connection r.scheduled_date
            (align_prompted_window id d r t).rows
          ≡ some (row.0, d')))
      × (length (align_prompted_window id d r t).rows ≡ length t.rows)
unfolding align_prompted_window
align-find_day connection id d r t {row} e =
    elim (Bool-cases (not (outcome_eq d.outcome prompted) || is_some d.listing_id)) [
      | inl kept ↦ rw kept ((row.1, e), refl)
      | inr free ↦ elim (Bool-cases (same_window d r)) [
        | inl same ↦ rw (free, same) ((row.1, e), refl)
        | inr moved ↦
            rw (free, moved)
              (
                find_day-modify connection r.scheduled_date id r t.rows e,
                length-modify id (set_window r) t.rows,
              )
      ]
    ]

open_day-missing :
    (connection : ℕ) (r : ResolvedDay) (t : Table ConnectionDay)
    → find_day connection r.scheduled_date t.rows ≡ none
    → open_day connection r t ≡ create (new_day connection r) t
unfolding open_day
open_day-missing connection r t e = ground arith

open_day-found :
    (connection : ℕ) (r : ResolvedDay) (t : Table ConnectionDay) {row : ℕ × ConnectionDay}
    → find_day connection r.scheduled_date t.rows ≡ some row
    → open_day connection r t ≡ (row.0, align_prompted_window row.0 row.1 r t)
unfolding open_day
open_day-found connection r t e = ground arith

-- Opening a day finds a row of its connection and date afterwards, the one whose id it hands out.
open_day-find_day :
    (connection : ℕ) (r : ResolvedDay) (t : Table ConnectionDay)
    → (d : ConnectionDay) × (find_day connection r.scheduled_date (open_day connection r t).1.rows
        ≡ some ((open_day connection r t).0, d))
open_day-find_day connection r t =
    elim (Option-cases (find_day connection r.scheduled_date t.rows)) [
      | inl missing ↦ rw (open_day-missing connection r t missing) (
        new_day connection r,
        find_day-append connection r.scheduled_date t.next (new_day connection r) t.rows missing
            refl refl,
      )
      | inr (row, found) ↦
          rw (open_day-found connection r t found)
            (align-find_day connection row.0 row.1 r t found).0
    ]

opened_again :
    (connection : ℕ) (r : ResolvedDay) (t : Table ConnectionDay) {row : ℕ × ConnectionDay}
    → find_day connection r.scheduled_date t.rows ≡ some row
    → ((open_day connection r t).0 ≡ row.0)
      × (length (open_day connection r t).1.rows ≡ length t.rows)
opened_again connection r t {row} found =
    rw (open_day-found connection r t found)
      (refl, (align-find_day connection row.0 row.1 r t found).1)

-- How many rows a connection has for a date.
unfoldable pub count_days : ℕ → ℕ → List (ℕ × ConnectionDay) → ℕ
count_days connection date [] = 0
count_days connection date (row ∷ rows) =
    (if row.1.connection_id == connection && row.1.scheduled_date == date then 1 else 0)
    + count_days connection date rows

module _ (connection date : ℕ) where
  count_days-modify :
      (k : ℕ) (r : ResolvedDay) (rows : List (ℕ × ConnectionDay))
      → count_days connection date (modify k (set_window r) rows) ≡ count_days connection date rows
  unfolding count_days
  count_days-modify k r [] = refl
  count_days-modify k r (row ∷ rows) = ground (arith, count_days-modify k r rows)

  count_days-append :
      (n : ℕ) (d : ConnectionDay) (rows : List (ℕ × ConnectionDay))
      → count_days connection date (rows ++ (n, d) ∷ [])
        ≡ count_days connection date rows
          + (if d.connection_id == connection && d.scheduled_date == date then 1 else 0)
  unfolding count_days
  count_days-append n d [] = ground arith
  count_days-append n d (row ∷ rows) = ground (arith, count_days-append n d rows)

  count_days-missing :
      (rows : List (ℕ × ConnectionDay))
      → find_day connection date rows ≡ none
      → count_days connection date rows ≡ 0
  unfolding count_days find_day
  count_days-missing [] e = refl
  count_days-missing (row ∷ rows) e = ground (arith, count_days-missing rows)

  count_days-align :
      (id : ℕ) (d : ConnectionDay) (r : ResolvedDay) (t : Table ConnectionDay)
      → count_days connection date (align_prompted_window id d r t).rows
        ≡ count_days connection date t.rows
  unfolding align_prompted_window
  count_days-align id d r t = ground (arith, count_days-modify id r t.rows)

-- Every connection has at most one collection day per date.
abbrev pub HasOneDay : List (ℕ × ConnectionDay) → Type 0
HasOneDay rows = (connection date : ℕ) → count_days connection date rows ≤ 1

open_day-HasOneDay :
    (connection : ℕ) (r : ResolvedDay) (t : Table ConnectionDay)
    → HasOneDay t.rows
    → HasOneDay (open_day connection r t).1.rows
open_day-HasOneDay connection r t one c date =
    elim (Option-cases (find_day connection r.scheduled_date t.rows)) [
      | inl missing ↦
          let before = one c date in
          let added = count_days-append c date t.next (new_day connection r) t.rows in
          let nothing = count_days-missing connection r.scheduled_date t.rows missing in
          rw (open_day-missing connection r t missing)
            (elim (Bool-cases (connection == c && r.scheduled_date == date)) [
              | inl it ↦
                  let same_c : connection ≡ c = ground arith in
                  let same_date : r.scheduled_date ≡ date = ground arith in
                  let none_there = rw (same_c, same_date) at nothing in rw added (ground arith)
              | inr other ↦ rw added (ground arith)
            ])
      | inr (row, found) ↦
          rw (open_day-found connection r t found, count_days-align c date row.0 row.1 r t)
            (one c date)
    ]

-- Where every connection has at most one collection day per date, this is still so after a day is
-- opened. Opening the same day again, whatever its window is by then, hands out the same id and
-- adds no row.
pub open_day-once :
    (connection : ℕ) (r r' : ResolvedDay) (t : Table ConnectionDay)
    → HasOneDay t.rows
    → r'.scheduled_date ≡ r.scheduled_date
    → HasOneDay (open_day connection r t).1.rows
      × ((open_day connection r' (open_day connection r t).1).0 ≡ (open_day connection r t).0)
      × (length (open_day connection r' (open_day connection r t).1).1.rows
          ≡ length (open_day connection r t).1.rows)
open_day-once connection r r' t one same =
    let (d, found) = open_day-find_day connection r t in
    let again =
      opened_again connection r' (open_day connection r t).1
        {row = ((open_day connection r t).0, d)} (rw same found) in
    (open_day-HasOneDay connection r t one, again.0, again.1)
