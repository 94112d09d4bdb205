-- ===== src/Connection/Rules/Sweep.antt =====
-- connection.rules.ts: when a reserved listing falls back to the network.
use svforb.Common.{ℕ, ◌≤◌, ◌≡◌, ◌↔◌, ◌⊎◌, true, false, Option, some, arith}
use svforb.Prisma.{ListingStatus, published, missed}
use svforb.Connection.Rules.{
  SweepDay, published_late, should_auto_release, should_escalate_to_business,
  published_listing_sweep_action, day_outcome_when_listing_closed, listing_can_be_released,
  can_mark_connection_day_collected, try_release, await_collection,
}

-- A day is auto-released exactly when it is published and either its window has ended, or the
-- charity's deadline has passed on a listing that was published before that deadline.
pub should_auto_release_iff :
    (day : SweepDay) (now : ℕ)
    → (should_auto_release day now ≡ true) ↔ (
        (day.outcome ≡ published)
        × ((day.window_end_at ≤ now) ⊎ ((day.cutoff_at ≤ now) × (published_late day ≡ false))))
unfolding should_auto_release
should_auto_release_iff day now = ground arith

-- Whenever the business would be chased, the listing is already due for release: the sweep tests
-- the release first, so it never gets to the chase.
pub escalate-release :
    (day : SweepDay) (now : ℕ)
    → should_escalate_to_business day now ≡ true
    → should_auto_release day now ≡ true
unfolding should_auto_release should_escalate_to_business
escalate-release day now h = ground arith

-- Time only adds to the days that are due: once a published day may be released it stays so.
pub should_auto_release_mono :
    (day : SweepDay) (now later : ℕ)
    → now ≤ later
    → should_auto_release day now ≡ true
    → should_auto_release day later ≡ true
unfolding should_auto_release
should_auto_release_mono day now later le h = ground arith

-- The sweep tries to release a listing exactly when it can be released, waits exactly when the
-- day may be closed as collected, and closes the day as missed in all other cases.
pub sweep_action_cases :
    (status : Option ListingStatus)
    → ((published_listing_sweep_action status ≡ try_release)
        ↔ (listing_can_be_released status ≡ true))
      × ((published_listing_sweep_action status ≡ await_collection)
          ↔ (can_mark_connection_day_collected status ≡ true))
      × ((day_outcome_when_listing_closed status ≡ some missed) ↔ (
          (listing_can_be_released status ≡ false)
          × (can_mark_connection_day_collected status ≡ false)))
unfolding day_outcome_when_listing_closed can_mark_connection_day_collected
sweep_action_cases status = ground arith
