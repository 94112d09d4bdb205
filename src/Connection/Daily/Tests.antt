-- ===== src/Connection/Daily/Tests.antt =====
-- connection.daily.service.ts: runs at concrete inputs. The window is open from 200 to 300, and
-- the charity has to confirm by 150.

use svforb.Common.{
  Option, arith, length, ◌/◌, ◌%◌, ℕ, ◌≡◌, ◌≢◌, ◌↔◌, ◌≤◌, ◌<◌, refl, true, false, none, some, List,
  [], ◌∷◌, ok,
}
use svforb.Common.Int.{ℤ, pos, ◌<ℤ◌, ◌+ℤ◌}
use svforb.Common.Table.{Table, find}
use svforb.Prisma.{
  ListingStatus, ConnectionDayOutcome, ConnectionStatus, prompted, published, missed, charity, full,
  SiteRole,
}
use svforb.Store.{FoodListing, FoodItem, ConnectionDay, Connection, Site, Db}
use svforb.Connection.Schedule.Clock.{ScheduleInput}
use svforb.Connection.Rules.{
  assert_can_claim, charity_declined, auto_released, should_auto_release,
  published_listing_sweep_action, release_reason_for, listing_can_be_released,
}
use svforb.Claims.{Caller, CreateClaimDto, exclusivity}
use svforb.Connection.Daily.{
  add_daily_surplus, declare_no_surplus, charity_cannot_collect, create_items, release,
  ReleaseDayDto, WindowPatch, no_dto, require_day, assert_donor_staff, is_unanswered, total_kg,
  reserved_listing, publish_day, write_surplus, release_listing, release_day, release_window,
  public_window_after_pickup_end,
}
use svforb.Connection.Daily.Surplus.{add_daily_surplus-reserved}
use svforb.Connection.Schedule.Clock.{is_space}
use svforb.Connection.Schedule.Calendar.{
  Intl, ResolvedDay, resolve_donor_timezone, collects_on, local_date_at, offset_at, resolve_day,
  instant_for_local_time,
}
use svforb.Connection.Daily.Sweeping.{sweep-settles}
use svforb.Connection.Daily.Outcomes.{
  Answer, surplus, nothing, cannot_collect, DaysFollow, answer, answer_all, answer_all-DaysFollow,
}
use svforb.Connection.Daily.Opening.{HasOneDay, count_days, open_day-once}
use svforb.Connection.Daily.Reassign.{reassign_to_connection, write_move}
use svforb.Connection.Daily.Reassign.Moving.{reassign-reserved}
use svforb.Connection.Rules.{can_mark_connection_day_collected}
use svforb.Connection.Daily.Sweeps.{
  open_day, find_day, new_day, sweep_unconfirmed, sweep_unconfirmed_days, sweep_unconfirmed_day,
  skip_or_close_if_not_releasable,
}

abbrev weekly : ScheduleInput
weekly = record {
  days_of_week = 1 ∷ [];
  window_start_minutes = 960;
  window_end_minutes = 1080;
  lead_time_minutes = 240;
  cutoff_minutes = 30;
}

abbrev connection : Connection
connection = record {
  donor_site_id = 2;
  donor_org_id = 1;
  receiver_site_id = 5;
  receiver_org_id = 7;
  status = ConnectionStatus.active;
  schedule = weekly;
  invitation_expires_at = none;
}

abbrev site : Site
site = record { organisation_id = 1; is_active = true; timezone = none }

abbrev today : ConnectionDay
today = record {
  connection_id = 6;
  scheduled_date = 0;
  window_start_at = 200;
  window_end_at = 300;
  cutoff_at = 150;
  outcome = prompted;
  prompted_at = some 50;
  published_at = none;
  responded_at = none;
  released_at = none;
  listing_id = none;
  collected_qty = none;
}

abbrev empty {ℓ} : {A : Type ℓ} → Table A
empty = record { next = 1; rows = [] }

abbrev kitchen : Db
kitchen = record {
  listings = empty;
  food_items = empty;
  claims = empty;
  pickups = empty;
  organisations = empty;
  connections = record { next = 7; rows = (6, connection) ∷ [] };
  days = record { next = 10; rows = (9, today) ∷ [] };
  sites = record { next = 3; rows = (2, site) ∷ [] };
  users = empty;
  site_access =
      (record { user_id = 10; site_id = 2; organisation_id = 1; site_role = SiteRole.staff }) ∷ [];
  supports = [];
  activities = [];
}

abbrev cook : Caller
cook = record {
  user_id = 10;
  org_id = some 1;
  org_type = none;
  site_id = some 2;
  is_super_admin = false;
  is_org_admin = false;
  enterprise_role = none;
}

abbrev loaves : List ℤ
loaves = pos 3 ∷ pos 2 ∷ []

abbrev served : ℕ × Db
served = write_surplus 100 9 today connection site loaves kitchen

surplus-accepted : add_daily_surplus 100 cook 9 loaves kitchen ≡ ok served
unfolding add_daily_surplus require_day assert_donor_staff ◌+ℤ◌
surplus-accepted = refl

add_daily_surplus-reserved_example :
    (day : ConnectionDay) × (c : Connection) × (l : FoodListing) × (day' : ConnectionDay) × (find 9
        kitchen.days
      ≡ some day)
    × (is_unanswered day.outcome ≡ true)
    × (find day.connection_id kitchen.connections ≡ some c)
    × (find served.0 served.1.listings ≡ some l)
    × (pos 0 <ℤ l.remaining_qty)
    × (l.remaining_qty ≡ total_kg loaves)
    × (find 9 served.1.days ≡ some day')
    × (day'.outcome ≡ published)
    × (day'.listing_id ≡ some served.0)
    × ((org : ℕ)
        → (assert_can_claim (exclusivity l) (some org) ≡ ok tt) ↔ (org ≡ c.receiver_org_id))
add_daily_surplus-reserved_example =
    add_daily_surplus-reserved 100 cook 9 loaves kitchen served tt surplus-accepted

-- The published day, and the listing of it.
abbrev reserved : FoodListing
reserved = reserved_listing today connection site (pos 5)

abbrev out_today : ConnectionDay
out_today = publish_day 100 1 today

abbrev stocked : Db
stocked = record kitchen {
  listings = record { next = 2; rows = (1, reserved) ∷ [] };
  days = record { next = 10; rows = (9, out_today) ∷ [] };
}

-- The database after the listing and the day are released.
abbrev open_to_all : FoodListing → ℕ → Db
open_to_all l now = record kitchen {
  listings = record { next = 2; rows = (1, l) ∷ [] };
  days = record { next = 10; rows = (9, release_day now out_today) ∷ [] };
}

abbrev auto_listing : FoodListing
auto_listing =
    release_listing 310 auto_released
      (record {
        pickup_from_time = some 310;
        pickup_by_time = some 14400310;
        best_before = some 14400310;
      })
      reserved

auto-released :
    release 310 auto_released no_dto 9 out_today stocked ≡ ok (open_to_all auto_listing 310)
unfolding release release_window public_window_after_pickup_end listing_can_be_released
    release_reason_for
auto-released = refl

sweep_test : sweep_unconfirmed 310 stocked ≡ open_to_all auto_listing 310
unfolding sweep_unconfirmed sweep_unconfirmed_days sweep_unconfirmed_day
    skip_or_close_if_not_releasable published_listing_sweep_action should_auto_release release
    release_window public_window_after_pickup_end listing_can_be_released release_reason_for
sweep_test = refl

-- The bread that the listing is about, and a claim on all of it by another charity.
abbrev bread : Table FoodItem
bread = record {
  next = 2;
  rows = (1, record { listing_id = 1; total_qty = pos 5; remaining_qty = pos 5 }) ∷ [];
}

abbrev with_bread : Db → Db
with_bread db = record db { food_items = bread }

abbrev another_charity : Caller
another_charity = record {
  user_id = 70;
  org_id = some 8;
  org_type = some charity;
  site_id = none;
  is_super_admin = false;
  is_org_admin = false;
  enterprise_role = none;
}

abbrev all_bread : CreateClaimDto
all_bread = record { listing_id = 1; claim_mode = full; claim_items = [] }

abbrev declined_listing : FoodListing
declined_listing =
    release_listing 140 charity_declined
      (record { pickup_from_time = none; pickup_by_time = none; best_before = none }) reserved

declined :
    release 140 charity_declined no_dto 9 out_today stocked ≡ ok (open_to_all declined_listing 140)
unfolding release release_window listing_can_be_released release_reason_for
declined = refl

-- The best-before time that is given lies before the end of the window.
abbrev evening : ReleaseDayDto
evening = record {
  pickup_from_time = some (some 400);
  pickup_by_time = some (some 500);
  best_before = some (some 450);
}

abbrev evening_patch : WindowPatch
evening_patch = record {
  pickup_from_time = some 400;
  pickup_by_time = some 500;
  best_before = some 500;
}

-- The day as the sweep finds it at the end of its window.
sweep-settles_example :
    (day' : ConnectionDay) × (find 9 (sweep_unconfirmed_day 310 (9, out_today) stocked).days
      ≡ some day')
    × (listing_can_be_released (some ListingStatus.active) ≡ true
        → day'.outcome ≡ ConnectionDayOutcome.released)
    × (can_mark_connection_day_collected (some ListingStatus.active) ≡ true
        → sweep_unconfirmed_day 310 (9, out_today) stocked ≡ stocked)
    × (listing_can_be_released (some ListingStatus.active) ≡ false
        → can_mark_connection_day_collected (some ListingStatus.active) ≡ false
        → day'.outcome ≡ missed)
sweep-settles_example = sweep-settles 310 9 1 out_today stocked refl refl (omega arith) refl

abbrev noon : ResolvedDay
noon = record {
  scheduled_date = 0;
  prompt_at = 50;
  cutoff_at = 150;
  window_start_at = 200;
  window_end_at = 300;
}

-- The same date, after the connection's window was edited.
abbrev later_noon : ResolvedDay
later_noon = record noon { window_end_at = 400 }

open_day-once_example :
    HasOneDay (open_day 6 noon empty).1.rows
    × ((open_day 6 later_noon (open_day 6 noon empty).1).0 ≡ (open_day 6 noon empty).0)
    × (length (open_day 6 later_noon (open_day 6 noon empty).1).1.rows
        ≡ length (open_day 6 noon empty).1.rows)
unfolding count_days
open_day-once_example = open_day-once 6 noon later_noon empty (λ connection date. omega arith) refl

-- A second connection of the same site, with organisation 8, on the day of the earliest date,
-- which is a Tuesday, and a clock that shows UTC.
abbrev utc : Intl
utc = record {
  knows = λ zone. true;
  parts = λ zone t. record {
    day = t / 86400000;
    hour = t % 86400000 / 3600000;
    minute = t % 3600000 / 60000;
    second = t % 60000 / 1000;
  };
}

abbrev other : Connection
other = record connection {
  receiver_org_id = 8;
  schedule = record weekly { days_of_week = 2 ∷ [] };
}

abbrev two_charities : Db
two_charities = record stocked {
  connections = record { next = 9; rows = (6, connection) ∷ (8, other) ∷ [] };
  sites = record {
    next = 3;
    rows = (2, record { organisation_id = 1; is_active = true; timezone = some (b'U' ∷ []) }) ∷ [];
  };
}

abbrev other_day : ResolvedDay
other_day = record {
  scheduled_date = 0;
  prompt_at = 43200000;
  cutoff_at = 55800000;
  window_start_at = 57600000;
  window_end_at = 64800000;
}

abbrev moved : Db
moved =
    write_move 120 9 10 1 8 other other_day
      (record { next = 11; rows = (9, out_today) ∷ (10, new_day 8 other_day) ∷ [] }) two_charities

moved-accepted : reassign_to_connection utc 120 cook 9 8 two_charities ≡ ok moved
unfolding reassign_to_connection require_day assert_donor_staff resolve_donor_timezone is_space
    collects_on local_date_at offset_at resolve_day instant_for_local_time find_day
moved-accepted = refl

reassign-reserved_example :
    (from : ConnectionDay) × (listing : ℕ) × (l : FoodListing) × (l' : FoodListing)
    × (target : Connection) × (by : ℕ) × (find 9 two_charities.days ≡ some from)
    × (from.outcome ≡ published)
    × (from.connection_id ≢ 8)
    × (from.listing_id ≡ some listing)
    × (find listing two_charities.listings ≡ some l)
    × (l.status ≡ ListingStatus.active)
    × (l.released_at ≡ none)
    × (find 8 two_charities.connections ≡ some target)
    × (target.status ≡ ConnectionStatus.active)
    × (find listing moved.listings ≡ some l')
    × (l'.remaining_qty ≡ l.remaining_qty)
    × ((org : ℕ)
        → (assert_can_claim (exclusivity l') (some org) ≡ ok tt) ↔ (org ≡ target.receiver_org_id))
    × (l'.pickup_by_time ≡ some by)
    × (120 < by)
    × (by ≤ l'.best_before)
reassign-reserved_example = reassign-reserved utc 120 cook 9 8 two_charities moved moved-accepted

-- The kitchen adds surplus, says too late that it has none, and the charity cannot collect.
abbrev answers : List Answer
answers =
    surplus 100 cook 9 loaves
    ∷ nothing 110 cook 9
    ∷ cannot_collect 140 (record cook { org_id = some 7 }) 9
    ∷ []

abbrev outcome_of : Db → Option ConnectionDayOutcome
outcome_of db = elim (find 9 db.days) [ none ↦ none | some d ↦ some d.outcome ]

answers_test : outcome_of (answer_all answers kitchen) ≡ some ConnectionDayOutcome.released
unfolding answer_all answer add_daily_surplus declare_no_surplus charity_cannot_collect
    write_surplus create_items require_day assert_donor_staff release release_window
    listing_can_be_released ◌+ℤ◌
answers_test = refl

answer_all-DaysFollow_example : DaysFollow kitchen (answer_all answers kitchen)
answer_all-DaysFollow_example = answer_all-DaysFollow answers kitchen
