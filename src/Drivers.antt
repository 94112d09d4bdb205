-- ===== src/Drivers.antt =====
-- src/modules/drivers/service/driver.location.service.ts: the operations of
-- `DriverLocationService` on driver pickups, each from the database before it to its result and
-- the database after it. What Redis holds of a driver who is live is a parameter. The photo,
-- notes, caches and notifications are not modelled.
pub mod Assignment
pub mod Completion
pub mod Effect
pub mod Service
mod Tests
use svforb.Common.{
  ℕ, Bool, true, false, not, ◌&&◌, ◌||◌, Option, none, some, List, [], ◌∷◌, ◌==◌, any, is_some,
  is_none, get_or, if◌then◌else◌, Result, ok, err, ◌>>=◌, ◌>>◌, throw_if, or_throw, bad_request,
  forbidden, not_found, conflict, foreign_key_violated,
}
use svforb.Common.Table.{Table, find, update, create}
use svforb.Prisma.{
  ClaimStatus, DriverPickupStatus, assigned, accepted, arrived, SiteRole, claim_status_eq,
  pickup_status_eq, driver,
}
use svforb.Store.{FoodListing, FoodClaim, DriverPickup, SiteAccess, User, Db, claim_collected}
use svforb.Claims.{total_qty, log}
use svforb.Claims.Lifecycle.{has_active_pickup, rate_org, or_keep, close_days}
use svforb.Claims.Repair.{is_settled, settle_claim}

-- interface LiveDriverInfo: the fields that decisions depend on
pub record LiveDriverInfo : Type 0 where
  pub site_id : ℕ
  pub org_id : ℕ

-- `getDriverInfo`, by user
abbrev pub LiveDrivers : Type 0
LiveDrivers = ℕ → Option LiveDriverInfo

abbrev pub new_pickup : ℕ → ℕ → ℕ → DriverPickupStatus → DriverPickup
new_pickup driver_id claim listing status = record {
  driver_id = driver_id;
  claim_id = claim;
  listing_id = listing;
  status = status;
  arrived_at = none;
  collected_at = none;
  cancelled_at = none;
  restaurant_rating = none;
  charity_driver_rating = none;
  restaurant_driver_rating = none;
}

-- `driverPickup.create`, whose three ids refer to rows that have to be there.
pub create_pickup : ℕ → ℕ → ℕ → DriverPickupStatus → Db → Result (ℕ × Db)
create_pickup driver_id claim listing status db = do
  throw_if
      (is_none (find driver_id db.users)
        || is_none (find claim db.claims)
        || is_none (find listing db.listings))
      foreign_key_violated
  let made = create (new_pickup driver_id claim listing status) db.pickups
  ok (made.0, record db { pickups = made.1 })

pub accept_pickup : LiveDrivers → ℕ → ℕ → ℕ → Db → Result (ℕ × Db)
unfolding create_pickup has_active_pickup
accept_pickup live driver_id claim listing db = do
  throw_if (is_none (live driver_id)) (forbidden "You must be live to accept pickups")
  throw_if (has_active_pickup claim db.pickups.rows)
      (conflict "This claim is already being handled by another driver")
  create_pickup driver_id claim listing accepted db

-- `findFirst({ where: { id: pickupId, driverId } })`
abbrev pub own_pickup : ℕ → ℕ → Db → Option DriverPickup
own_pickup id driver_id db = elim (find id db.pickups) [
  | none ↦ none
  | some p ↦ if p.driver_id == driver_id then some p else none
]

-- `{ status, ...timestamps }`
abbrev pub set_status : ℕ → DriverPickupStatus → DriverPickup → DriverPickup
set_status now status p = record p {
  status = status;
  arrived_at = if pickup_status_eq status arrived then some now else p.arrived_at;
  cancelled_at =
      if pickup_status_eq status DriverPickupStatus.cancelled then some now else p.cancelled_at;
}

pub update_pickup_status : ℕ → ℕ → ℕ → DriverPickupStatus → Db → Result Db
update_pickup_status now id driver_id status db = do
  p ← or_throw (own_pickup id driver_id db) (not_found "Pickup not found")
  throw_if
      (pickup_status_eq p.status DriverPickupStatus.collected
        || pickup_status_eq p.status DriverPickupStatus.cancelled)
      (bad_request "Cannot update a completed or cancelled pickup")
  throw_if (pickup_status_eq p.status assigned)
      (bad_request "Respond to the assignment (accept/decline) before updating trip status")
  throw_if (pickup_status_eq status DriverPickupStatus.collected)
      (bad_request "Use the complete endpoint to mark as collected")
  throw_if (pickup_status_eq status assigned) (bad_request "Invalid status transition")
  ok (record db { pickups = update id (set_status now status) db.pickups })

abbrev pub delivered : ℕ → Option ℕ → DriverPickup → DriverPickup
delivered collected_at rating p = record p {
  status = DriverPickupStatus.collected;
  collected_at = some collected_at;
  restaurant_rating = or_keep rating p.restaurant_rating;
}

-- The writes of the transaction of `completePickup` on the claim that the pickup is for, as it was
-- read before the transaction.
pub deliver_claim : ℕ → DriverPickup → FoodClaim → FoodListing → Option ℕ → Db → Db
deliver_claim collected_at p claim l rating db =
    let kg = total_qty claim.claim_items in
    log p.listing_id claim.claimant_org_id claim_collected (some kg) (record db {
      claims =
          update p.claim_id
            (λ c. record c {
              status = ClaimStatus.collected;
              collected_at = some collected_at;
              rating = or_keep rating c.rating;
            })
            db.claims;
      organisations = rate_org l.organisation_id rating db.organisations;
      days = close_days l.status collected_at p.listing_id kg db.days;
    })

-- The transaction: the pickup in any case, and its claim unless it was read as settled.
pub complete_tx : ℕ → ℕ → DriverPickup → FoodClaim → FoodListing → Option ℕ → Db → Db
unfolding deliver_claim
complete_tx now id p claim l rating db =
    let collected_at = get_or claim.collected_at now in
    let done = record db { pickups = update id (delivered collected_at rating) db.pickups } in
    if is_settled claim.status then done else deliver_claim collected_at p claim l rating done

pub complete_pickup : ℕ → ℕ → ℕ → Option ℕ → Db → Result Db
unfolding complete_tx settle_claim
complete_pickup now id driver_id rating db = do
  p ← or_throw (own_pickup id driver_id db) (not_found "Pickup not found")
  claim ← or_throw (find p.claim_id db.claims) (not_found "Pickup not found")
  l ← or_throw (find claim.listing_id db.listings) (not_found "Pickup not found")
  if pickup_status_eq p.status DriverPickupStatus.collected
      then ok (
          if is_settled claim.status
          then db
          else settle_claim (get_or p.collected_at now) p.claim_id claim l p.listing_id db)
      else (throw_if (not (pickup_status_eq p.status arrived))
            (bad_request "Mark as ARRIVED before completing the pickup")
          >> ok (complete_tx now id p claim l rating db))

-- `siteAccess.findFirst({ where: { userId, siteRole: DRIVER, organisationId } })`
abbrev pub is_driver_access : ℕ → ℕ → SiteAccess → Bool
is_driver_access driver_id org a =
    a.user_id == driver_id
    && a.organisation_id == org
    && (elim a.site_role [ driver ↦ true | _ ↦ false ])

pub is_driver_of : ℕ → ℕ → List SiteAccess → Bool
is_driver_of driver_id org accesses = any (is_driver_access driver_id org) accesses

-- `driverInfo && driverInfo.orgId !== assignerOrgId`
abbrev pub is_live_elsewhere : Option LiveDriverInfo → ℕ → Bool
is_live_elsewhere none org = false
is_live_elsewhere (some info) org = not (info.org_id == org)

-- `driver && driver.isActive`
abbrev pub is_active_user : Option User → Bool
is_active_user none = false
is_active_user (some u) = u.is_active

pub assign_driver_to_pickup : LiveDrivers → ℕ → ℕ → ℕ → ℕ → Db → Result (ℕ × Db)
unfolding create_pickup has_active_pickup is_driver_of
assign_driver_to_pickup live org claim_id listing driver_id db = do
  claim ← or_throw (find claim_id db.claims) (not_found "Claim not found")
  throw_if (not (claim.listing_id == listing)) (bad_request "Listing does not match claim")
  throw_if (not (claim.claimant_org_id == org))
      (forbidden "You can only assign drivers for your own claims")
  throw_if (is_settled claim.status) (bad_request "Cannot assign a driver to this claim")
  throw_if (not (is_driver_of driver_id org db.site_access))
      (forbidden "The specified user is not a driver in your organisation")
  throw_if (is_live_elsewhere (live driver_id) org)
      (bad_request "Driver does not belong to your organisation")
  throw_if (has_active_pickup claim_id db.pickups.rows)
      (conflict "This claim already has an active driver assigned")
  throw_if (not (is_active_user (find driver_id db.users))) (not_found "Driver not found")
  create_pickup driver_id claim_id listing assigned db

abbrev pub answered : ℕ → Bool → DriverPickup → DriverPickup
answered now true p = record p { status = accepted }
answered now false p = record p { status = DriverPickupStatus.cancelled; cancelled_at = some now }

pub respond_to_pickup_assignment : ℕ → ℕ → ℕ → Bool → Db → Result Db
respond_to_pickup_assignment now id driver_id accept db = do
  p ← or_throw (own_pickup id driver_id db) (not_found "Pickup not found")
  throw_if (not (pickup_status_eq p.status assigned)) (
      bad_request (
        if pickup_status_eq p.status DriverPickupStatus.cancelled
          || pickup_status_eq p.status DriverPickupStatus.collected
        then "Cannot respond to a completed or cancelled pickup"
        else "This pickup is not awaiting a response"))
  ok (record db { pickups = update id (answered now accept) db.pickups })

-- `findFirst({ where: { claimId, status: { in: CURRENT_STATUSES } } })`
pub active_pickup : ℕ → List (ℕ × DriverPickup) → Option (ℕ × DriverPickup)
unfolding has_active_pickup
active_pickup claim [] = none
active_pickup claim (row ∷ rows) =
    let rest = active_pickup claim rows in
    if has_active_pickup claim (row ∷ []) then some row else rest

pub decline_available_pickup : ℕ → ℕ → ℕ → Db → Result Db
unfolding active_pickup is_driver_of respond_to_pickup_assignment
decline_available_pickup now driver_id claim_id db = do
  claim ← or_throw (find claim_id db.claims) (not_found "Claim not found")
  throw_if (is_settled claim.status) (bad_request "This claim is no longer available")
  throw_if (not (is_driver_of driver_id claim.claimant_org_id db.site_access))
      (forbidden "You can only decline pickups for your organisation")
  elim (active_pickup claim_id db.pickups.rows) [
    | none ↦ ok db
    | some row ↦
        if row.1.driver_id == driver_id && pickup_status_eq row.1.status assigned
        then respond_to_pickup_assignment now row.0 driver_id false db
        else err (conflict "This claim already has an active driver assignment")
  ]
