-- ===== src/Connection/Daily/Reassign.antt =====
-- connection.daily.service.ts: `reassignToConnection`.
pub mod Moving
use svforb.Common.{
  ℕ, not, ◌||◌, none, some, ◌==◌, leb, is_some, if◌then◌else◌, Result, ok, ◌>>=◌, ◌>>◌, throw_if,
  or_throw, bad_request, conflict,
}
use svforb.Common.Table.{Table, find, update, create}
use svforb.Prisma.{
  ListingStatus, ConnectionStatus, ConnectionDayOutcome, published, outcome_eq, listing_status_eq,
  connection_status_eq,
}
use svforb.Store.{FoodListing, ConnectionDay, Connection, Db}
use svforb.Connection.Schedule.Calendar.{
  Intl, ResolvedDay, local_date_at, collects_on, resolve_day, resolve_donor_timezone,
}
use svforb.Claims.{Caller}
use svforb.Connection.Daily.{require_day, assert_donor_staff, is_unanswered, publish_day}
use svforb.Connection.Daily.Sweeps.{find_day, new_day}

-- The day of the other connection, and the table that has it.
abbrev day_to_fill :
    ℕ → ResolvedDay → Table ConnectionDay → (ℕ × ConnectionDay) × Table ConnectionDay
day_to_fill connection r t = elim (find_day connection r.scheduled_date t.rows) [
  | none ↦ let (id, t') = create (new_day connection r) t in ((id, new_day connection r), t')
  | some row ↦ (row, t)
]

abbrev pub move_listing : ℕ → Connection → ResolvedDay → FoodListing → FoodListing
move_listing connection target r l = record l {
  connection_id = some connection;
  exclusive_to_org_id = some target.receiver_org_id;
  exclusive_until = some r.cutoff_at;
  released_at = none;
  released_reason = none;
  pickup_from_time = some r.window_start_at;
  pickup_by_time = some r.window_end_at;
  best_before = if leb r.window_end_at l.best_before then l.best_before else r.window_end_at;
}

abbrev pub leave_day : ℕ → ConnectionDay → ConnectionDay
leave_day now d = record d {
  outcome = ConnectionDayOutcome.released;
  released_at = some now;
  responded_at = some now;
  listing_id = none;
}

pub write_move : ℕ → ℕ → ℕ → ℕ → ℕ → Connection → ResolvedDay → Table ConnectionDay → Db → Db
write_move now from to listing connection target r days db = record db {
  listings = update listing (move_listing connection target r) db.listings;
  days = update to (publish_day now listing) (update from (leave_day now) days);
}

module _ (intl : Intl) where
  -- No guard fails after a row was created for the other day: it is unanswered and has no listing.
  unfoldable pub reassign_to_connection : ℕ → Caller → ℕ → ℕ → Db → Result Db
  reassign_to_connection now caller from_id to_connection db = do
    (from, connection) ← require_day from_id db
    assert_donor_staff caller connection.donor_site_id db
    throw_if (not (outcome_eq from.outcome published))
        (conflict "There is no reserved listing to move.")
    listing ← or_throw from.listing_id (conflict "There is no reserved listing to move.")
    throw_if (from.connection_id == to_connection)
        (bad_request "This listing is already reserved for that connection.")
    l ← or_throw (find listing db.listings) (conflict "This listing is no longer active.")
    throw_if (not (listing_status_eq l.status ListingStatus.active))
        (conflict "This listing is no longer active.")
    throw_if (is_some l.released_at) (conflict "This listing is already on the open network.")
    target ←
        or_throw (find to_connection db.connections) (conflict "That connection is not active.")
    throw_if (not (connection_status_eq target.status ConnectionStatus.active))
        (conflict "That connection is not active.")
    throw_if (not (target.donor_site_id == connection.donor_site_id))
        (bad_request "That connection is for a different site.")
    site ← or_throw (find target.donor_site_id db.sites) (conflict "Set this site’s timezone.")
    zone ← or_throw (resolve_donor_timezone site.timezone) (conflict "Set this site’s timezone.")
    throw_if (not (collects_on target.schedule (local_date_at intl zone now)))
        (conflict "That charity is not scheduled to collect today.")
    let r = resolve_day intl zone target.schedule (local_date_at intl zone now)
    throw_if (leb r.window_end_at now) (conflict "That charity’s pickup window has already ended.")
    let (to, days) = day_to_fill to_connection r db.days
    throw_if (not (is_unanswered to.1.outcome) || is_some to.1.listing_id)
        (conflict "That charity already has a listing today.")
    ok (write_move now from_id to.0 listing to_connection target r days db)
