-- ===== src/Connection/Service/Requests/Apart.antt =====
-- connection.service.ts: when the live Connections of one pair of sites collect.
use svforb.Common.{
  ℕ, ◌≡◌, ◌↔◌, ◌<◌, refl, true, false, List, [], ◌∷◌, ok, arith, any, In, Bool-cases, inl, inr,
}
use svforb.Store.{Connection, Db}
use svforb.Connection.Schedule.Clock.{minutes_in_day, validate_schedule}
use svforb.Connection.Schedule.Clock.Window.{Covers, schedules_overlap_iff}
use svforb.Connection.Schedule.Clock.Validation.{validate_schedule_iff}
use svforb.Connection.Schedule.Calendar.{Intl}
use svforb.Connection.Service.{has_clash, clashes, is_live, pickup_window}
use svforb.Connection.Service.Requests.{Request, handle_all, is_edit}
use svforb.Connection.Service.Requests.Windows.{NoClash, handle_all-NoClash}
use svforb.Connection.Service.Requests.Valid.{AllValid, handle_all-AllValid}

-- A live Connection of the same two sites that shares a collection weekday, and a minute of the day
-- that both windows cover; what runs past midnight counts as the early minutes of the same weekday.
abbrev pub Collides : Connection → Connection → Type 0
Collides a b =
    (b.donor_site_id ≡ a.donor_site_id)
    × (b.receiver_site_id ≡ a.receiver_site_id)
    × (is_live b.status ≡ true)
    × ((d : ℕ) × In d a.schedule.days_of_week × In d b.schedule.days_of_week)
    × ((m : ℕ) × (m < minutes_in_day)
        × Covers (pickup_window a.schedule) m
        × Covers (pickup_window b.schedule) m)

-- No live Connection collides with one that stands after it.
abbrev pub Apart : List (ℕ × Connection) → Type 0
Apart [] = Unit {0}
Apart ((i, c) ∷ rows) =
    ((is_live c.status ≡ true) → (row : ℕ × Connection) → In row rows → ¬ Collides c row.1)
    × Apart rows

module _ (a b : Connection) (valid_a : validate_schedule a.schedule ≡ ok tt)
    (valid_b : validate_schedule b.schedule ≡ ok tt) where
  clashes_iff : (clashes a.donor_site_id a.receiver_site_id a.schedule b ≡ true) ↔ Collides a b
  clashes_iff =
      let start_a = ((validate_schedule_iff a.schedule).0 valid_a).start_in_day in
      let start_b = ((validate_schedule_iff b.schedule).0 valid_b).start_in_day in
      let meets =
        schedules_overlap_iff (pickup_window a.schedule) (pickup_window b.schedule) start_a
          start_b in
      (
        (λ h.
            let (days, minutes) = meets.0 (ground arith) in
            (ground arith, ground arith, ground arith, days, minutes)),
        (λ (donor, receiver, live, days, minutes).
            let overlap = meets.1 (days, minutes) in ground arith),
      )

module _ (c : Connection) (valid : validate_schedule c.schedule ≡ ok tt) where
  has_clash-true :
      (rows : List (ℕ × Connection))
      → AllValid rows
      → has_clash c.donor_site_id c.receiver_site_id c.schedule rows ≡ true
      → (row : ℕ × Connection) × In row rows × Collides c row.1
  unfolding has_clash
  has_clash-true [] v h = absurd (cc)
  has_clash-true (row ∷ rows) v h =
      elim (Bool-cases (clashes c.donor_site_id c.receiver_site_id c.schedule row.1)) [
        | inl here ↦ (row, inl refl, (clashes_iff c row.1 valid v.0).0 here)
        | inr other ↦
            let (r, further, collides) = has_clash-true rows v.1 (ground arith) in
            (r, inr further, collides)
      ]

  has_clash-Collides :
      (rows : List (ℕ × Connection)) (row : ℕ × Connection)
      → AllValid rows
      → In row rows
      → Collides c row.1
      → has_clash c.donor_site_id c.receiver_site_id c.schedule rows ≡ true
  unfolding has_clash
  has_clash-Collides [] row v h collides = absurd h
  has_clash-Collides (r ∷ rows) row v (inl e) collides =
      let same : r ≡ row = ground arith in
      let here = (clashes_iff c r.1 valid v.0).1 (rw same collides) in ground arith
  has_clash-Collides (r ∷ rows) row v (inr further) collides =
      let rest = has_clash-Collides rows row v.1 further collides in ground arith

Apart-NoClash : (rows : List (ℕ × Connection)) → AllValid rows → Apart rows → NoClash rows
Apart-NoClash [] v h = tt
Apart-NoClash ((i, c) ∷ rows) v h = (
  (λ live. elim (Bool-cases (has_clash c.donor_site_id c.receiver_site_id c.schedule rows)) [
    | inl clash ↦
        let (row, here, collides) = has_clash-true c v.0 rows v.1 clash in
        absurd (h.0 live row here collides)
    | inr free ↦ free
  ]),
  Apart-NoClash rows v.1 h.1,
)

pub NoClash-Apart : (rows : List (ℕ × Connection)) → AllValid rows → NoClash rows → Apart rows
NoClash-Apart [] v h = tt
NoClash-Apart ((i, c) ∷ rows) v h = (
  (λ live row here collides.
      let clash = has_clash-Collides c v.0 rows row v.1 here collides in
      let free = h.0 live in absurd (cc)),
  NoClash-Apart rows v.1 h.1,
)

-- Let every stored schedule be valid, and let no two live Connections between one pair of sites
-- share a collection weekday and a minute of the day that both windows cover, where the part of a
-- window that runs past midnight counts as early minutes of the weekday on which it starts. Then
-- this is so after however many requests of which none edits a schedule.
pub handle_all-Apart :
    (intl : Intl) (rs : List Request) (db : Db)
    → any is_edit rs ≡ false
    → AllValid db.connections.rows
    → Apart db.connections.rows
    → Apart (handle_all intl rs db).connections.rows
handle_all-Apart intl rs db no_edit v h =
    NoClash-Apart (handle_all intl rs db).connections.rows (handle_all-AllValid intl rs db v)
      (handle_all-NoClash intl rs db no_edit (Apart-NoClash db.connections.rows v h))
