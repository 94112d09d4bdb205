-- ===== src/Drivers/Assignment.antt =====
-- driver.location.service.ts: who may be given a claim's pickup by `assignDriverToPickup`, and who
-- may take one by `acceptPickup`.
use svforb.Common.{
  ℕ, ◌≡◌, refl, true, false, some, ok, arith, inl, inr, Option-cases, suc, [], ◌∷◌, ◌++◌, is_some,
}
use svforb.Common.Table.{find, create}
use svforb.Prisma.{assigned, accepted}
use svforb.Store.{FoodClaim, FoodListing, Db}
use svforb.Claims.Lifecycle.{has_active_pickup}
use svforb.Claims.Repair.{is_settled}
use svforb.Drivers.{
  LiveDrivers, create_pickup, new_pickup, accept_pickup, assign_driver_to_pickup, is_driver_of,
  is_live_elsewhere, is_active_user,
}

-- The claim is open and the organisation's own, of the listing that is named, with no driver under
-- way; the driver is an active user, one of the organisation's, and not live for another one.
pub record MayAssign (live : LiveDrivers) (org claim listing driver_id : ℕ) (db : Db) : Type 0 where
  pub c : FoodClaim
  pub found : find claim db.claims ≡ some c
  pub of_listing : c.listing_id ≡ listing
  pub own : c.claimant_org_id ≡ org
  pub open_claim : is_settled c.status ≡ false
  pub employed : is_driver_of driver_id org db.site_access ≡ true
  pub live_here : is_live_elsewhere (live driver_id) org ≡ false
  pub free : has_active_pickup claim db.pickups.rows ≡ false
  pub active_user : is_active_user (find driver_id db.users) ≡ true
  pub listed : (l : FoodListing) × (find listing db.listings ≡ some l)

-- If an assignment succeeds then the driver may be assigned, and all that changes is one new row:
-- an assigned pickup of the driver, the claim and the listing, under the next id.
pub assign_driver_to_pickup-MayAssign :
    (live : LiveDrivers) (org claim listing driver_id : ℕ) (db : Db) (out : ℕ × Db)
    → assign_driver_to_pickup live org claim listing driver_id db ≡ ok out
    → MayAssign live org claim listing driver_id db
      × (out ≡ (
        db.pickups.next,
        record db {
          pickups = record {
            next = suc db.pickups.next;
            rows =
                db.pickups.rows
                ++ (db.pickups.next, new_pickup driver_id claim listing assigned) ∷ [];
          };
        },
      ))
unfolding assign_driver_to_pickup create_pickup
assign_driver_to_pickup-MayAssign live org claim listing driver_id db out h =
    elim (Option-cases (find claim db.claims)) [
      | inl e ↦ absurd (ground arith)
      | inr (c, e) ↦ elim (Option-cases (find listing db.listings)) [
        | inl el ↦ absurd (ground arith)
        | inr (l, el) ↦ (
          record {
            c = c;
            found = e;
            of_listing = ground arith;
            own = ground arith;
            open_claim = ground arith;
            employed = ground arith;
            live_here = ground arith;
            free = ground arith;
            active_user = ground arith;
            listed = (l, el);
          },
          ground arith,
        )
      ]
    ]

-- A driver who is live takes any claim that has no driver under way, also a claim that is already
-- collected or cancelled, of whichever listing he names and of whichever organisation: it is
-- enough that the three rows are there.
pub accept_pickup_unchecked :
    (live : LiveDrivers) (driver_id claim listing : ℕ) (db : Db)
    → is_some (live driver_id) ≡ true
    → is_some (find driver_id db.users) ≡ true
    → is_some (find claim db.claims) ≡ true
    → is_some (find listing db.listings) ≡ true
    → has_active_pickup claim db.pickups.rows ≡ false
    → (out : ℕ × Db) × (accept_pickup live driver_id claim listing db ≡ ok out)
      × (out.1.pickups.rows
          ≡ db.pickups.rows ++ (db.pickups.next, new_pickup driver_id claim listing accepted) ∷ [])
unfolding accept_pickup create_pickup
accept_pickup_unchecked live driver_id claim listing db online user row named free = (
  (
    db.pickups.next,
    record db { pickups = (create (new_pickup driver_id claim listing accepted) db.pickups).1 },
  ),
  ground arith,
  refl,
)
