-- ===== src/Drivers/Completion.antt =====
-- driver.location.service.ts: what `completePickup` does, alone and when the claim has changed
-- since it was read.
use mathlib.Core.Option
use svforb.Common.{
  ℕ, ◌≡◌, ◌≢◌, refl, Bool, not, ◌&&◌, ◌==◌, ◌+◌, false, Option, some, none, ok, arith, get_or,
  opt_eq, is_some, if◌then◌else◌, Bool-cases, Option-cases, inl, inr,
}
use svforb.Common.Int.{ℤ}
use svforb.Common.Table.{find, lookup-modify_self, lookup-modify, lookup-modify_where}
use svforb.Prisma.{
  ClaimStatus, arrived, ListingStatus, ConnectionDayOutcome, DriverPickupStatus, published,
  outcome_eq, listing_status_eq,
}
use svforb.Store.{FoodClaim, FoodListing, DriverPickup, Organisation, ConnectionDay, Db}
use svforb.Connection.Rules.{can_mark_connection_day_collected}
use svforb.Claims.{total_qty}
use svforb.Claims.Lifecycle.{add_rating, or_keep, is_published_day, close_day}
use svforb.Claims.Repair.{is_settled}
use svforb.Drivers.{delivered, deliver_claim, complete_tx, complete_pickup}

abbrev pub collect_at : ℕ → Option ℕ → FoodClaim → FoodClaim
collect_at t rating c = record c {
  status = ClaimStatus.collected;
  collected_at = some t;
  rating = if is_some rating then rating else c.rating;
}

abbrev written_claim : ℕ → Option ℕ → FoodClaim → FoodClaim
written_claim t rating c = record c {
  status = ClaimStatus.collected;
  collected_at = some t;
  rating = or_keep rating c.rating;
}

-- The pickup that was completed at a time.
abbrev pub end_at : ℕ → Option ℕ → DriverPickup → DriverPickup
end_at t rating p = record p {
  status = DriverPickupStatus.collected;
  collected_at = some t;
  restaurant_rating = if is_some rating then rating else p.restaurant_rating;
}

-- The organisation after a rating with these stars, if it is the one that was rated.
abbrev pub rated : Bool → Option ℕ → Organisation → Organisation
rated is_rated none o = o
rated is_rated (some stars) o =
    if is_rated
    then record o { rating_total = o.rating_total + stars; rating_count = o.rating_count + 1 }
    else o

-- The collection day after a delivery of the listing at a time, if its listing is fully claimed.
abbrev pub day_after : Bool → ℕ → ℕ → ℤ → ConnectionDay → ConnectionDay
day_after is_closing listing t kg d =
    if is_closing && opt_eq d.listing_id listing && outcome_eq d.outcome published
    then record d {
      outcome = ConnectionDayOutcome.collected;
      collected_qty = some kg;
      responded_at = some t;
    }
    else d

-- The effect of the completion of a pickup that was not collected before.
pub record Delivery (now id driver : ℕ) (rating : Option ℕ) (p : DriverPickup) (db db' : Db)
    : Type 0 where
  pub claim : FoodClaim
  pub l : FoodListing
  pub found : find p.claim_id db.claims ≡ some claim
  pub found_listing : find claim.listing_id db.listings ≡ some l
  pub own : p.driver_id ≡ driver
  pub was_there : p.status ≡ arrived
  pub pickup_after : find id db'.pickups ≡ some (end_at (get_or claim.collected_at now) rating p)
  pub claim_after :
      find p.claim_id db'.claims
      ≡ some (
          if is_settled claim.status
          then claim
          else collect_at (get_or claim.collected_at now) rating claim)
  pub ratings :
      (o : ℕ)
      → find o db'.organisations
        ≡ Option.map
            (rated (not (is_settled claim.status) && l.organisation_id == o) rating)
            (find o db.organisations)
  pub days :
      (j : ℕ)
      → find j db'.days
        ≡ Option.map
            (day_after
              (not (is_settled claim.status) && listing_status_eq l.status ListingStatus.claimed)
              p.listing_id
              (get_or claim.collected_at now)
              (total_qty claim.claim_items))
            (find j db.days)
  pub same_listings : db'.listings ≡ db.listings
  pub same_items : db'.food_items ≡ db.food_items

complete_tx-organisations :
    (now id : ℕ) (rating : Option ℕ) (p : DriverPickup) (c : FoodClaim) (l : FoodListing) (db : Db)
    (o : ℕ)
    → find o (complete_tx now id p c l rating db).organisations
      ≡ Option.map
          (rated (not (is_settled c.status) && l.organisation_id == o) rating)
          (find o db.organisations)
unfolding complete_tx deliver_claim
complete_tx-organisations now id none p c l db o = ground arith
complete_tx-organisations now id (some stars) p c l db o =
    ground (arith, lookup-modify l.organisation_id o (add_rating stars) db.organisations.rows)

complete_tx-days :
    (now id : ℕ) (rating : Option ℕ) (p : DriverPickup) (c : FoodClaim) (l : FoodListing) (db : Db)
    (j : ℕ)
    → find j (complete_tx now id p c l rating db).days
      ≡ Option.map
          (day_after
            (not (is_settled c.status) && listing_status_eq l.status ListingStatus.claimed)
            p.listing_id
            (get_or c.collected_at now)
            (total_qty c.claim_items))
          (find j db.days)
unfolding complete_tx deliver_claim can_mark_connection_day_collected
complete_tx-days now id rating p c l db j = ground (
  arith,
  lookup-modify_where (is_published_day p.listing_id) j
      (close_day (get_or c.collected_at now) (total_qty c.claim_items)) db.days.rows,
)

complete_tx-claim :
    (now id : ℕ) (rating : Option ℕ) (p : DriverPickup) (c : FoodClaim) (l : FoodListing) (db : Db)
    → find p.claim_id db.claims ≡ some c
    → find p.claim_id (complete_tx now id p c l rating db).claims
      ≡ some (if is_settled c.status then c else collect_at (get_or c.collected_at now) rating c)
unfolding complete_tx deliver_claim
complete_tx-claim now id rating p c l db found = ground (
  arith,
  lookup-modify_self p.claim_id (written_claim (get_or c.collected_at now) rating) db.claims.rows
      {r = c},
)

complete_tx-Delivery :
    (now id : ℕ) (rating : Option ℕ) (p : DriverPickup) (c : FoodClaim) (l : FoodListing) (db : Db)
    → find id db.pickups ≡ some p
    → find p.claim_id db.claims ≡ some c
    → find c.listing_id db.listings ≡ some l
    → p.status ≡ arrived
    → Delivery now id p.driver_id rating p db (complete_tx now id p c l rating db)
unfolding complete_tx deliver_claim
complete_tx-Delivery now id rating p c l db found found_claim found_listing here = record {
  claim = c;
  l = l;
  found = found_claim;
  found_listing = found_listing;
  own = refl;
  was_there = here;
  pickup_after = ground (
    arith,
    lookup-modify_self id (delivered (get_or c.collected_at now) rating) db.pickups.rows {r = p},
  );
  claim_after = complete_tx-claim now id rating p c l db found_claim;
  ratings = complete_tx-organisations now id rating p c l db;
  days = complete_tx-days now id rating p c l db;
  same_listings = ground arith;
  same_items = ground arith;
}

-- A pickup that was not collected yet can only be completed by its driver and after arrival.
-- It is then collected. If its claim was neither collected nor cancelled, the claim is collected
-- with it, at one time; a rating, if one was given, counts once, for the listing's organisation
-- alone; and if the listing is fully claimed, the published collection days of the pickup's listing
-- are closed with what the claim holds, and no other day changes. If the claim was settled, it,
-- the ratings and the days stay. Listings and food items stay in any case.
pub complete_pickup-delivers :
    (now id driver : ℕ) (rating : Option ℕ) (db db' : Db) {p : DriverPickup}
    → find id db.pickups ≡ some p
    → p.status ≢ DriverPickupStatus.collected
    → complete_pickup now id driver rating db ≡ ok db'
    → Delivery now id driver rating p db db'
unfolding complete_pickup
complete_pickup-delivers now id driver rating db db' {p} found open_pickup done =
    elim (Bool-cases (p.driver_id == driver)) [
      | inr other ↦ absurd (ground arith)
      | inl mine ↦ elim (Option-cases (find p.claim_id db.claims)) [
        | inl missing ↦ absurd (ground arith)
        | inr (c, found_claim) ↦ elim (Option-cases (find c.listing_id db.listings)) [
          | inl missing ↦ absurd (ground arith)
          | inr (l, found_listing) ↦
              let here : p.status ≡ arrived = ground arith in
              let written : complete_tx now id p c l rating db ≡ db' = ground arith in
              let same : p.driver_id ≡ driver = ground arith in
              rw (← written, ← same)
                (complete_tx-Delivery now id rating p c l db found found_claim found_listing here)
        ]
      ]
    ]

-- The transaction does not look at the claim again. If the claim was read open and has been
-- cancelled since, so that its weights were given back, the transaction makes it collected and
-- takes no weight again.
pub complete_tx_revives :
    (now id : ℕ) (p : DriverPickup) (c : FoodClaim) (l : FoodListing) (rating : Option ℕ) (db : Db)
    {current : FoodClaim}
    → is_settled c.status ≡ false
    → find p.claim_id db.claims ≡ some current
    → current.status ≡ ClaimStatus.cancelled
    → (r : FoodClaim) × (find p.claim_id (complete_tx now id p c l rating db).claims ≡ some r)
      × (r.status ≡ ClaimStatus.collected)
      × (r.claim_items ≡ current.claim_items)
      × ((complete_tx now id p c l rating db).listings ≡ db.listings)
      × ((complete_tx now id p c l rating db).food_items ≡ db.food_items)
unfolding complete_tx deliver_claim
complete_tx_revives now id p c l rating db {current} open_claim found cancelled =
    let t = get_or c.collected_at now in
    (
      collect_at t rating current,
      ground (
        arith,
        lookup-modify_self p.claim_id (written_claim t rating) db.claims.rows {r = current},
      ),
      refl,
      refl,
      ground arith,
      ground arith,
    )
