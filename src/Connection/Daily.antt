-- ===== src/Connection/Daily.antt =====
-- connection.daily.service.ts: what the business and the charity do with a collection day. The
-- notifications that follow a write are not modelled.
pub mod Sweeps
pub mod Reassign
pub mod Release
pub mod Surplus
pub mod Opening
pub mod Outcomes
pub mod Sweeping
mod Tests
use svforb.Common.{
  ℕ, ◌+◌, ◌*◌, Bool, true, false, not, ◌&&◌, ◌||◌, Option, none, some, List, [], ◌∷◌, ◌++◌, ◌==◌,
  leb, ltb, is_some, is_none, opt_eq, any, if◌then◌else◌, Result, ok, err, ◌>>=◌, ◌>>◌, throw_if,
  or_throw, bad_request, forbidden, not_found, conflict,
}
use svforb.Common.Int.{ℤ, pos, ◌+ℤ◌, leb_ℤ}
use svforb.Common.Table.{Table, find, update, create}
use svforb.Prisma.{
  ListingStatus, human, ConnectionStatus, SiteRole, ConnectionDayOutcome, prompted, published,
  no_surplus, no_response, outcome_eq, connection_status_eq,
}
use svforb.Store.{FoodListing, FoodItem, ConnectionDay, Connection, Site, SiteAccess, Db}
use svforb.Connection.Rules.{
  ReleaseTrigger, charity_declined, business_released, auto_released, partial_remainder,
  release_reason_for, listing_can_be_released,
}
use svforb.Claims.{Caller}

abbrev pub is_staff : SiteRole → Bool
is_staff SiteRole.site_admin = true
is_staff SiteRole.staff = true
is_staff _ = false

abbrev pub has_staff_access : ℕ → ℕ → List SiteAccess → Bool
has_staff_access user site rows =
    any (λ a. a.user_id == user && a.site_id == site && is_staff a.site_role) rows

pub assert_donor_staff : Caller → ℕ → Db → Result (Unit {0})
assert_donor_staff caller site db = do
  s ← or_throw (find site db.sites) (forbidden "That site belongs to another organisation.")
  throw_if (not (opt_eq caller.org_id s.organisation_id))
      (forbidden "That site belongs to another organisation.")
  throw_if (not caller.is_super_admin && not (has_staff_access caller.user_id site db.site_access))
      (forbidden "You do not have access to this site.")

-- A day with its connection.
pub require_day : ℕ → Db → Result (ConnectionDay × Connection)
require_day id db = do
  day ← or_throw (find id db.days) (not_found "Scheduled collection not found")
  connection ←
      or_throw (find day.connection_id db.connections) (not_found "Scheduled collection not found")
  ok (day, connection)

-- The outcomes that the business may still answer.
abbrev pub is_unanswered : ConnectionDayOutcome → Bool
is_unanswered outcome = outcome_eq outcome prompted || outcome_eq outcome no_response

abbrev pub total_kg : List ℤ → ℤ
total_kg [] = pos 0
total_kg (q ∷ qs) = q +ℤ total_kg qs

-- The food items of a new listing, by their quantities.
unfoldable pub create_items : ℕ → List ℤ → Table FoodItem → Table FoodItem
create_items listing [] t = t
create_items listing (q ∷ qs) t =
    create_items listing qs
      (create (record { listing_id = listing; total_qty = q; remaining_qty = q }) t).1

-- The listing of a day, reserved for the connection's charity.
abbrev pub reserved_listing : ConnectionDay → Connection → Site → ℤ → FoodListing
reserved_listing day connection site kg = record {
  organisation_id = site.organisation_id;
  listing_type = human;
  total_qty = kg;
  remaining_qty = kg;
  best_before = day.window_end_at;
  pickup_from_time = some day.window_start_at;
  pickup_by_time = some day.window_end_at;
  status = ListingStatus.active;
  unique_claimant_count = 0;
  connection_id = some day.connection_id;
  exclusive_to_org_id = some connection.receiver_org_id;
  exclusive_until = some day.cutoff_at;
  released_at = none;
  released_reason = none;
}

abbrev pub publish_day : ℕ → ℕ → ConnectionDay → ConnectionDay
publish_day now listing d = record d {
  outcome = published;
  published_at = some now;
  listing_id = some listing;
}

-- The writes of the transaction of `addDailySurplus`.
pub write_surplus : ℕ → ℕ → ConnectionDay → Connection → Site → List ℤ → Db → ℕ × Db
write_surplus now id day connection site items db =
    let (listing, listings) =
      create (reserved_listing day connection site (total_kg items)) db.listings in
    (
      listing,
      record db {
        listings = listings;
        food_items = create_items listing items db.food_items;
        days = update id (publish_day now listing) db.days;
      },
    )

pub add_daily_surplus : ℕ → Caller → ℕ → List ℤ → Db → Result (ℕ × Db)
add_daily_surplus now caller id items db = do
  (day, connection) ← require_day id db
  assert_donor_staff caller connection.donor_site_id db
  throw_if (not (is_unanswered day.outcome))
      (conflict "Today's collection has already been answered.")
  throw_if (leb day.window_end_at now) (conflict "Today’s pickup window has already ended.")
  throw_if (not (connection_status_eq connection.status ConnectionStatus.active))
      (conflict "This connection is not active.")
  site ← or_throw (find connection.donor_site_id db.sites) (not_found "No Site found")
  throw_if (leb_ℤ (total_kg items) (pos 0)) (bad_request "Enter a quantity greater than zero.")
  ok (write_surplus now id day connection site items db)

pub declare_no_surplus : ℕ → Caller → ℕ → Db → Result Db
declare_no_surplus now caller id db = do
  (day, connection) ← require_day id db
  assert_donor_staff caller connection.donor_site_id db
  throw_if (not (is_unanswered day.outcome)) (conflict "This collection has already been answered.")
  throw_if (leb day.window_end_at now) (conflict "Today’s pickup window has already ended.")
  ok (record db {
    days = update id (λ d. record d { outcome = no_surplus; responded_at = some now }) db.days;
  })

-- class ReleaseDayDto: a text that is given is an instant, or no valid date.
pub record ReleaseDayDto : Type 0 where
  pub pickup_from_time : Option (Option ℕ)
  pub pickup_by_time : Option (Option ℕ)
  pub best_before : Option (Option ℕ)

-- The columns of the pickup window that a release sets.
pub record WindowPatch : Type 0 where
  pub pickup_from_time : Option ℕ
  pub pickup_by_time : Option ℕ
  pub best_before : Option ℕ

abbrev pub no_patch : WindowPatch
no_patch = record { pickup_from_time = none; pickup_by_time = none; best_before = none }

abbrev is_invalid : Option (Option ℕ) → Bool
is_invalid (some none) = true
is_invalid _ = false

abbrev given : Option (Option ℕ) → Option ℕ
given (some (some t)) = some t
given _ = none

-- `a && b && a <= b`
abbrev both_leb : Option ℕ → Option ℕ → Bool
both_leb (some a) (some b) = leb a b
both_leb _ _ = false

-- The best-before time, moved up to the end of the pickup window.
abbrev at_least : Option ℕ → Option ℕ → Option ℕ
at_least (some best) (some by) = if ltb best by then some by else some best
at_least best _ = best

pub parse_release_window : ℕ → ReleaseDayDto → Result WindowPatch
parse_release_window now dto =
    let from = given dto.pickup_from_time in
    let by = given dto.pickup_by_time in
    let best = if is_some dto.best_before then given dto.best_before else by in
    if is_none dto.pickup_from_time && is_none dto.pickup_by_time && is_none dto.best_before
    then ok no_patch
    else (throw_if
          ((is_some dto.pickup_from_time && is_none dto.pickup_by_time)
            || (is_none dto.pickup_from_time && is_some dto.pickup_by_time))
          (bad_request "Set both the pickup start and end times.")
        >> throw_if (is_invalid dto.pickup_from_time || is_invalid dto.pickup_by_time)
            (bad_request "The pickup window is not a valid time.")
        >> throw_if (both_leb by from)
            (bad_request "Pickup end time must be after pickup start time.")
        >> throw_if (both_leb by (some now))
            (bad_request "Choose a pickup window that has not ended yet.")
        >> throw_if (is_invalid dto.best_before) (bad_request "The best before time is not valid.")
        >> ok (record {
          pickup_from_time = from;
          pickup_by_time = by;
          best_before = at_least best by;
        }))

abbrev pub follow_on_ms : ℕ
follow_on_ms = 4 * 60 * 60 * 1000

abbrev future_or : ℕ → Option ℕ → ℕ
future_or now none = now + follow_on_ms
future_or now (some t) = if ltb now t then t else now + follow_on_ms

pub public_window_after_pickup_end : ℕ → FoodListing → WindowPatch
public_window_after_pickup_end now listing =
    let by = future_or now listing.pickup_by_time in
    record {
      pickup_from_time = some now;
      pickup_by_time = some by;
      best_before = some (if leb by listing.best_before then listing.best_before else by);
    }

abbrev or_old : Option ℕ → Option ℕ → Option ℕ
or_old none old = old
or_old (some t) old = some t

abbrev or_old_time : Option ℕ → ℕ → ℕ
or_old_time none old = old
or_old_time (some t) old = t

abbrev pub release_listing : ℕ → ReleaseTrigger → WindowPatch → FoodListing → FoodListing
release_listing now trigger w l = record l {
  released_at = some now;
  released_reason = some (release_reason_for trigger);
  exclusive_until = none;
  pickup_from_time = or_old w.pickup_from_time l.pickup_from_time;
  pickup_by_time = or_old w.pickup_by_time l.pickup_by_time;
  best_before = or_old_time w.best_before l.best_before;
}

abbrev pub release_day : ℕ → ConnectionDay → ConnectionDay
release_day now d = record d {
  outcome = ConnectionDayOutcome.released;
  released_at = some now;
  responded_at = some now;
}

pub release_window : ℕ → ReleaseTrigger → ReleaseDayDto → FoodListing → Result WindowPatch
release_window now business_released dto l = parse_release_window now dto
release_window now auto_released dto l = ok (public_window_after_pickup_end now l)
release_window now charity_declined dto l = ok no_patch
release_window now partial_remainder dto l = ok no_patch

-- `release`, of a day that was read before it.
pub release : ℕ → ReleaseTrigger → ReleaseDayDto → ℕ → ConnectionDay → Db → Result Db
release now trigger dto id day db = do
  throw_if (not (outcome_eq day.outcome published)) (conflict "There is nothing to release.")
  listing ← or_throw day.listing_id (conflict "There is nothing to release.")
  l ← or_throw (find listing db.listings) (conflict "This listing is no longer active.")
  throw_if (not (listing_can_be_released (some l.status)))
      (conflict "This listing is no longer active.")
  w ← release_window now trigger dto l
  ok (record db {
    listings = update listing (release_listing now trigger w) db.listings;
    days = update id (release_day now) db.days;
  })

abbrev pub no_dto : ReleaseDayDto
no_dto = record { pickup_from_time = none; pickup_by_time = none; best_before = none }

pub charity_cannot_collect : ℕ → Caller → ℕ → Db → Result Db
charity_cannot_collect now caller id db = do
  (day, connection) ← require_day id db
  throw_if (not (opt_eq caller.org_id connection.receiver_org_id))
      (forbidden "This collection belongs to another organisation.")
  release now charity_declined no_dto id day db

pub release_to_network : ℕ → Caller → ℕ → ReleaseDayDto → Db → Result Db
release_to_network now caller id dto db = do
  (day, connection) ← require_day id db
  assert_donor_staff caller connection.donor_site_id db
  release now business_released dto id day db
