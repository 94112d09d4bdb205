-- ===== src/Connection/Daily/Sweeping.antt =====
-- connection.daily.service.ts: what a round of `sweepUnconfirmed` does to its day.
use svforb.Common.{
  ℕ, ◌≡◌, ◌≤◌, refl, true, false, Bool-cases, Option-cases, some, inl, inr, ok, arith,
}
use svforb.Common.Table.{find, update, lookup-modify_self}
use svforb.Prisma.{ConnectionDayOutcome, published, missed}
use svforb.Store.{ConnectionDay, FoodListing, Db}
use svforb.Connection.Rules.{
  auto_released, listing_can_be_released, can_mark_connection_day_collected,
  published_listing_sweep_action, day_outcome_when_listing_closed, should_auto_release,
}
use svforb.Connection.Daily.{
  release, release_day, release_listing, release_window, no_dto, public_window_after_pickup_end,
}
use svforb.Connection.Daily.Sweeps.{
  status_of, sweep_view, sweep_unconfirmed_day, skip_or_close_if_not_releasable,
}

module _ (now id listing : ℕ) (day : ConnectionDay) (db : Db)
    (is_published : day.outcome ≡ published) (linked : day.listing_id ≡ some listing)
    (ended : day.window_end_at ≤ now) where
  due : should_auto_release (sweep_view day) now ≡ true
  unfolding should_auto_release
  due = ground arith

  -- The database after the listing and its day were released.
  abbrev released_db : FoodListing → Db
  released_db l = record db {
    listings =
        update listing (release_listing now auto_released (public_window_after_pickup_end now l))
          db.listings;
    days = update id (release_day now) db.days;
  }

  abbrev missed_db : Db
  missed_db = record db {
    days = update id (λ d. record d { outcome = missed; responded_at = some now }) db.days;
  }

  skip_open :
      listing_can_be_released (status_of (find listing db.listings)) ≡ true
      → skip_or_close_if_not_releasable now id day db ≡ (false, db)
  unfolding skip_or_close_if_not_releasable published_listing_sweep_action
  skip_open o = ground arith

  skip_claimed :
      can_mark_connection_day_collected (status_of (find listing db.listings)) ≡ true
      → skip_or_close_if_not_releasable now id day db ≡ (true, db)
  unfolding skip_or_close_if_not_releasable published_listing_sweep_action
      can_mark_connection_day_collected
  skip_claimed o = ground arith

  skip_closed :
      listing_can_be_released (status_of (find listing db.listings)) ≡ false
      → can_mark_connection_day_collected (status_of (find listing db.listings)) ≡ false
      → skip_or_close_if_not_releasable now id day db ≡ (true, missed_db)
  unfolding skip_or_close_if_not_releasable day_outcome_when_listing_closed
      can_mark_connection_day_collected
  skip_closed o c = ground arith

  release_open :
      (l : FoodListing)
      → find listing db.listings ≡ some l
      → listing_can_be_released (some l.status) ≡ true
      → release now auto_released no_dto id day db ≡ ok (released_db l)
  unfolding release release_window
  release_open l found o = ground arith

  sweep_open :
      (l : FoodListing)
      → find listing db.listings ≡ some l
      → listing_can_be_released (some l.status) ≡ true
      → sweep_unconfirmed_day now (id, day) db ≡ released_db l
  unfolding sweep_unconfirmed_day
  sweep_open l found o =
      let skipped = skip_open (rw found o) in
      let done = release_open l found o in rw (skipped, due, done) refl

  sweep_skipped :
      (db' : Db)
      → skip_or_close_if_not_releasable now id day db ≡ (true, db')
      → sweep_unconfirmed_day now (id, day) db ≡ db'
  unfolding sweep_unconfirmed_day
  sweep_skipped db' e = rw e refl

  -- Once the window of a published day has ended, a round of the sweep settles it: the day is
  -- released if its listing is open, missed if its listing is gone or closed, and left as it is,
  -- to the collection, if its listing is claimed.
  pub sweep-settles :
      find id db.days ≡ some day
      → (day' : ConnectionDay) × (find id (sweep_unconfirmed_day now (id, day) db).days ≡ some day')
        × (listing_can_be_released (status_of (find listing db.listings)) ≡ true
            → day'.outcome ≡ ConnectionDayOutcome.released)
        × (can_mark_connection_day_collected (status_of (find listing db.listings)) ≡ true
            → sweep_unconfirmed_day now (id, day) db ≡ db)
        × (listing_can_be_released (status_of (find listing db.listings)) ≡ false
            → can_mark_connection_day_collected (status_of (find listing db.listings)) ≡ false
            → day'.outcome ≡ missed)
  unfolding listing_can_be_released can_mark_connection_day_collected
  sweep-settles found =
      let status = status_of (find listing db.listings) in
      elim (Bool-cases (can_mark_connection_day_collected status)) [
        | inl waiting ↦
            let swept = sweep_skipped db (skip_claimed waiting) in
            (
              day,
              rw swept found,
              λ o. absurd (ground arith),
              λ w. swept,
              λ o c. absurd (ground arith),
            )
        | inr collectable ↦ elim (Bool-cases (listing_can_be_released status)) [
          | inl o ↦ elim (Option-cases (find listing db.listings)) [
            | inl gone ↦ absurd (ground arith)
            | inr (l, there) ↦ (
              release_day now day,
              rw (sweep_open l there (ground arith))
                  (lookup-modify_self id (release_day now) db.days.rows found),
              λ e. refl,
              λ w. absurd (ground arith),
              λ e. absurd (ground arith),
            )
          ]
          | inr closed ↦ (
            record day { outcome = missed; responded_at = some now },
            rw (sweep_skipped missed_db (skip_closed closed collectable))
                (lookup-modify_self id _ db.days.rows found),
            λ e. absurd (ground arith),
            λ w. absurd (ground arith),
            λ e c. refl,
          )
        ]
      ]
