-- ===== src/Drivers/Tests.antt =====
-- driver.location.service.ts: runs at concrete inputs. Organisation 7, a charity, has claimed 4 kg
-- of listing 3 of organisation 1; user 20 drives for it.
use svforb.Common.{ℕ, ◌≡◌, refl, true, false, none, some, List, [], ◌∷◌, ok, arith, ◌++◌}
use svforb.Common.Int.{pos, ◌+ℤ◌}
use svforb.Common.Table.{Table, find}
use svforb.Prisma.{
  ListingStatus, ClaimStatus, ClaimMode, human, charity, assigned, accepted, arrived, SiteRole,
  ConnectionDayOutcome, DriverPickupStatus, published,
}
use svforb.Store.{FoodListing, FoodClaim, DriverPickup, Organisation, ConnectionDay, Db}
use svforb.Connection.Rules.{can_mark_connection_day_collected}
use svforb.Claims.{Caller, total_qty}
use svforb.Claims.Lifecycle.{has_active_pickup}
use svforb.Claims.Ledger.{IsConserved, sum_by, qty_of}
use svforb.Claims.Repair.{
  heal_claims, heal_claim, collected_pickup, sorted_pickups, insert_pickup, first_collected,
}
use svforb.Claims.Service as ClaimService
use svforb.Claims.Service.Statuses.{AllFollow}
use svforb.Drivers.{
  LiveDrivers, new_pickup, create_pickup, accept_pickup, complete_pickup, complete_tx,
  assign_driver_to_pickup, respond_to_pickup_assignment, is_driver_of,
}
use svforb.Drivers.Assignment.{
  MayAssign, assign_driver_to_pickup-MayAssign, accept_pickup_unchecked,
}
use svforb.Drivers.Completion.{Delivery, complete_pickup-delivers, complete_tx_revives}
use svforb.Drivers.Service.{
  Request, on_claim, list_mine, accept, move, complete, assign, respond, decline, handle,
  handle_all,
}
use svforb.Drivers.Service.Balance.{handle_all-IsConserved, handle_all-AllFollow}
use svforb.Drivers.Service.Delivered.{IsDelivered, handle_all-IsDelivered, heal_claims-handle_all}
use svforb.Drivers.Service.Exclusive.{IsExclusive, active_count, handle_all-IsExclusive}
use svforb.Drivers.Service.Trips.{Persists, handle_all-Persists}

abbrev rolls : FoodListing
rolls = record {
  organisation_id = 1;
  listing_type = human;
  total_qty = pos 10;
  remaining_qty = pos 6;
  best_before = 1000;
  pickup_from_time = none;
  pickup_by_time = none;
  status = ListingStatus.partial;
  unique_claimant_count = 1;
  connection_id = none;
  exclusive_to_org_id = none;
  exclusive_until = none;
  released_at = none;
  released_reason = none;
}

abbrev held : FoodClaim
held = record {
  listing_id = 3;
  claimant_org_id = 7;
  claimant_site_id = none;
  claim_mode = ClaimMode.partial;
  status = ClaimStatus.pending;
  claim_items = (record { food_item_id = 1; qty = pos 4 }) ∷ [];
  rating = none;
  confirmed_at = none;
  collected_at = none;
  provider_confirmed_at = none;
  provider_rating = none;
  provider_did_collect = none;
}

abbrev empty {ℓ} : {A : Type ℓ} → Table A
empty = record { next = 1; rows = [] }

abbrev org : Organisation
org = record { org_type = charity; rating_total = 0; rating_count = 0 }

abbrev depot : Db
depot = record {
  listings = record { next = 4; rows = (3, rolls) ∷ [] };
  food_items = record {
    next = 2;
    rows = (1, record { listing_id = 3; total_qty = pos 10; remaining_qty = pos 6 }) ∷ [];
  };
  claims = record { next = 2; rows = (1, held) ∷ [] };
  pickups = empty;
  organisations = record { next = 8; rows = (1, org) ∷ (7, org) ∷ [] };
  connections = empty;
  days = empty;
  sites = empty;
  users = record { next = 21; rows = (20, record { is_active = true }) ∷ [] };
  site_access =
      (record { user_id = 20; site_id = 5; organisation_id = 7; site_role = SiteRole.driver }) ∷ [];
  supports = [];
  activities = [];
}

abbrev nobody : LiveDrivers
nobody user = none

abbrev everybody : LiveDrivers
everybody user = some (record { site_id = 5; org_id = 7 })

abbrev baker : Caller
baker = record {
  user_id = 10;
  org_id = some 1;
  org_type = none;
  site_id = none;
  is_super_admin = false;
  is_org_admin = false;
  enterprise_role = none;
}

-- A second assignment, a late cancellation and a second completion among them.
abbrev trip : List Request
trip =
    assign nobody 7 1 3 20
    ∷ accept everybody 20 1 3
    ∷ respond 50 1 20 true
    ∷ on_claim (ClaimService.confirm 60 baker 1)
    ∷ move 70 1 20 arrived
    ∷ complete 80 1 20 (some 5)
    ∷ on_claim (ClaimService.cancel baker 1)
    ∷ complete 90 1 20 (some 1)
    ∷ list_mine 95 (1 ∷ [])
    ∷ decline 99 20 1
    ∷ []

depot-IsConserved : IsConserved depot
unfolding sum_by qty_of total_qty ◌+ℤ◌
depot-IsConserved = record { by_listing = λ i l e. ground arith; by_item = λ i it e. ground arith }

handle_all-IsConserved_example : IsConserved (handle_all trip depot)
handle_all-IsConserved_example = handle_all-IsConserved trip depot depot-IsConserved

handle_all-AllFollow_example : AllFollow depot.claims.rows (handle_all trip depot).claims.rows
handle_all-AllFollow_example = handle_all-AllFollow trip depot

depot-IsExclusive : IsExclusive depot
unfolding active_count
depot-IsExclusive claim = omega arith

handle_all-IsExclusive_example : IsExclusive (handle_all trip depot)
handle_all-IsExclusive_example = handle_all-IsExclusive trip depot depot-IsExclusive

depot-IsDelivered : IsDelivered depot
depot-IsDelivered row here delivered = absurd here

handle_all-IsDelivered_example : IsDelivered (handle_all trip depot)
handle_all-IsDelivered_example = handle_all-IsDelivered trip depot depot-IsDelivered

heal_claims-handle_all_example :
    heal_claims 95 (1 ∷ []) (handle_all trip depot) ≡ handle_all trip depot
heal_claims-handle_all_example = heal_claims-handle_all 95 (1 ∷ []) trip depot depot-IsDelivered

abbrev given : DriverPickup
given = new_pickup 20 1 3 assigned

abbrev with_pickup : DriverPickup → Db
with_pickup p = record depot { pickups = record { next = 2; rows = (1, p) ∷ [] } }

handle_all-Persists_example : Persists 1 given (handle_all trip (with_pickup given))
handle_all-Persists_example = handle_all-Persists trip (with_pickup given) 1 given refl

abbrev there : DriverPickup
there = record given { status = arrived; arrived_at = some 70 }

handled :
    handle (respond 50 1 20 true) (with_pickup given)
    ≡ ok (with_pickup (record given { status = accepted }))
unfolding handle respond_to_pickup_assignment
handled = refl

assigned_now : assign_driver_to_pickup nobody 7 1 3 20 depot ≡ ok (1, with_pickup given)
unfolding assign_driver_to_pickup create_pickup has_active_pickup is_driver_of
assigned_now = refl

assign_driver_to_pickup-MayAssign_example :
    MayAssign nobody 7 1 3 20 depot
    × (◌≡◌ {A = ℕ × Db}
        (1, with_pickup given)
        (
          1,
          record depot {
            pickups = record { next = 2; rows = [] ++ (1, new_pickup 20 1 3 assigned) ∷ [] };
          },
        ))
assign_driver_to_pickup-MayAssign_example =
    assign_driver_to_pickup-MayAssign nobody 7 1 3 20 depot (1, with_pickup given) assigned_now

-- The claim has been cancelled.
abbrev lost : FoodClaim
lost = record held { status = ClaimStatus.cancelled }

abbrev after_cancel : Db
after_cancel = record (with_pickup there) {
  claims = record { next = 2; rows = (1, lost) ∷ [] };
  pickups = empty;
}

accept_pickup_unchecked_example :
    (out : ℕ × Db) × (accept_pickup everybody 20 1 3 after_cancel ≡ ok out)
    × (out.1.pickups.rows ≡ (1, new_pickup 20 1 3 accepted) ∷ [])
unfolding has_active_pickup
accept_pickup_unchecked_example =
    accept_pickup_unchecked everybody 20 1 3 after_cancel refl refl refl refl refl

-- The whole listing is claimed, and it is that of a published collection day.
abbrev collection : ConnectionDay
collection = record {
  connection_id = 6;
  scheduled_date = 0;
  window_start_at = 60;
  window_end_at = 90;
  cutoff_at = 50;
  outcome = published;
  prompted_at = none;
  published_at = some 20;
  responded_at = some 20;
  released_at = none;
  listing_id = some 3;
  collected_qty = none;
}

abbrev all_claimed : FoodListing
all_claimed = record rolls { status = ListingStatus.claimed }

abbrev at_the_door : Db
at_the_door = record (with_pickup there) {
  listings = record { next = 4; rows = (3, all_claimed) ∷ [] };
  days = record { next = 5; rows = (4, collection) ∷ [] };
}

abbrev handed_over : Db
handed_over = complete_tx 80 1 there held all_claimed (some 5) at_the_door

handed_over-ok : complete_pickup 80 1 20 (some 5) at_the_door ≡ ok handed_over
unfolding complete_pickup
handed_over-ok = refl

collection-closed :
    find 4 handed_over.days
    ≡ some (record collection {
      outcome = ConnectionDayOutcome.collected;
      responded_at = some 80;
      collected_qty = some (pos 4);
    })
unfolding complete_tx total_qty ◌+ℤ◌ can_mark_connection_day_collected
collection-closed = refl

complete_pickup-delivers_example : Delivery 80 1 20 (some 5) there at_the_door handed_over
complete_pickup-delivers_example =
    complete_pickup-delivers 80 1 20 (some 5) at_the_door handed_over refl (ground arith)
      handed_over-ok

-- The repair reads three pickups of a claim, and those that were never collected come first.
abbrev turned_down : DriverPickup
turned_down = record given { status = DriverPickupStatus.cancelled }

abbrev brought : DriverPickup
brought = record there { status = DriverPickupStatus.collected; collected_at = some 80 }

abbrev with_pickups : List (ℕ × DriverPickup) → Db
with_pickups rows = record depot { pickups = record { next = 5; rows = rows } }

heal_claims-misses :
    let db =
      with_pickups ((1, brought) ∷ (2, turned_down) ∷ (3, turned_down) ∷ (4, turned_down) ∷ []) in
    heal_claims 90 (1 ∷ []) db ≡ db
unfolding heal_claims heal_claim collected_pickup sorted_pickups insert_pickup first_collected
heal_claims-misses = refl

heal_claims-finds :
    collected_pickup 1 ((1, brought) ∷ (2, turned_down) ∷ (3, turned_down) ∷ []) ≡ some brought
unfolding collected_pickup sorted_pickups insert_pickup first_collected
heal_claims-finds = refl

complete_tx_revives_example :
    (r : FoodClaim) × (find 1 (complete_tx 80 1 there held rolls none after_cancel).claims ≡ some r)
    × (r.status ≡ ClaimStatus.collected)
    × (r.claim_items ≡ held.claim_items)
    × ((complete_tx 80 1 there held rolls none after_cancel).listings ≡ depot.listings)
    × ((complete_tx 80 1 there held rolls none after_cancel).food_items ≡ depot.food_items)
complete_tx_revives_example =
    complete_tx_revives 80 1 there held rolls none after_cancel refl refl refl
