-- ===== src/Drivers/Effect.antt =====
-- What a request to either service does to the driver pickups: nothing, a change of one of them, or
-- a new one.
pub mod Operations
pub mod Requests
pub mod Collecting
use svforb.Common.{ℕ, ◌≡◌, refl, Bool, true, false, ◌||◌, ◌⊎◌, Option, some, List, ◌∷◌, [], ◌++◌}
use svforb.Common.Table.{find, modify, create}
use svforb.Prisma.{DriverPickupStatus, assigned, accepted, en_route, arrived, pickup_status_eq}
use svforb.Store.{DriverPickup, FoodClaim, Db}
use svforb.Claims.Lifecycle.{has_active_pickup}
use svforb.Claims.Repair.{is_settled}

-- The statuses that one request may give to a pickup, itself included.
unfoldable pub may_step : DriverPickupStatus → DriverPickupStatus → Bool
may_step assigned s =
    pickup_status_eq s assigned
    || pickup_status_eq s accepted
    || pickup_status_eq s DriverPickupStatus.cancelled
may_step arrived assigned = false
may_step arrived s = true
may_step DriverPickupStatus.collected s = pickup_status_eq s DriverPickupStatus.collected
may_step DriverPickupStatus.cancelled s = pickup_status_eq s DriverPickupStatus.cancelled
may_step under_way assigned = false
may_step under_way DriverPickupStatus.collected = false
may_step under_way s = true

pub record Steps (p p' : DriverPickup) : Type 0 where
  pub status : may_step p.status p'.status ≡ true
  pub same_driver : p'.driver_id ≡ p.driver_id
  pub same_claim : p'.claim_id ≡ p.claim_id
  pub same_listing : p'.listing_id ≡ p.listing_id

-- A pickup as it is created.
abbrev pub IsNew : DriverPickup → Type 0
IsNew p = (pickup_status_eq p.status assigned || pickup_status_eq p.status accepted) ≡ true

-- The claim is collected or cancelled.
abbrev pub SettledIn : ℕ → Db → Type 0
SettledIn id db = (c : FoodClaim) × (find id db.claims ≡ some c) × (is_settled c.status ≡ true)

abbrev pub is_delivered : DriverPickup → Bool
is_delivered p = pickup_status_eq p.status DriverPickupStatus.collected

pub data Effect (db db' : Db) : Type 0 where
  same : db'.pickups ≡ db.pickups → Effect db db'
  changed :
      (id : ℕ) (g : DriverPickup → DriverPickup) (old : DriverPickup)
      → find id db.pickups ≡ some old
      → db'.pickups.rows ≡ modify id g db.pickups.rows
      → db'.pickups.next ≡ db.pickups.next
      → Steps old (g old)
      → ((is_delivered (g old) ≡ true) → (is_delivered old ≡ true) ⊎ SettledIn old.claim_id db')
      → Effect db db'
  created :
      (new : DriverPickup)
      → has_active_pickup new.claim_id db.pickups.rows ≡ false
      → IsNew new
      → db'.pickups ≡ (create new db.pickups).1
      → Effect db db'
