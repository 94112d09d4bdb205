-- ===== src/Claims/Tests.antt =====
-- claims.service.ts: runs at concrete inputs. Organisation 1 has a listing of 10 kg in two items;
-- organisation 7 is a charity.
use svforb.Common.{
  ◌≡◌, refl, true, false, Option, none, some, List, [], ◌∷◌, ok, err, bad_request, ℕ, arith,
}
use svforb.Common.Int.{ℤ, pos, ◌+ℤ◌, ◌-ℤ◌, ◌≤ℤ◌, ◌<ℤ◌}
use svforb.Common.Table.{Table, find}
use svforb.Prisma.{ListingStatus, ClaimStatus, pending, ClaimMode, full, human, OrgType, charity}
use svforb.Store.{FoodListing, FoodItem, ClaimItem, FoodClaim, Organisation, Db}
use svforb.Connection.Rules.{assert_can_claim}
use svforb.Claims.{
  Caller, CreateClaimDto, claim_listing, write_claim, claim_items_data, check_items,
  assert_claimable, is_eligible, take_items, upsert_support, total_qty, has_active_claim,
}
use svforb.Claims.Lifecycle.{
  cancel_claim, collect_tx, mark_collected, confirm_claim, has_active_pickup,
}
use svforb.Claims.Feedback.{rate_claim, submit_provider_feedback, latest_delivery, rate_driver}
use svforb.Claims.Ledger.{IsConserved, sum_by, qty_of}
use svforb.Claims.Admission.{MayClaim, claim_listing-MayClaim}
use svforb.Claims.Oversell.{partial_claim_fits, claim_oversells, repeated}
use svforb.Claims.Cancelling.{cancel_claim-claim_listing}
use svforb.Claims.Collecting.{collect_tx-once}
use svforb.Claims.Service.{
  Request, claim, confirm, cancel, collect, rate, feedback, rate_pickup, serve, perform,
}

abbrev rolls : FoodListing
rolls = record {
  organisation_id = 1;
  listing_type = human;
  total_qty = pos 10;
  remaining_qty = pos 10;
  best_before = 1000;
  pickup_from_time = none;
  pickup_by_time = some 900;
  status = ListingStatus.active;
  unique_claimant_count = 0;
  connection_id = none;
  exclusive_to_org_id = none;
  exclusive_until = none;
  released_at = none;
  released_reason = none;
}

abbrev item : ℤ → FoodItem
item kg = record { listing_id = 3; total_qty = kg; remaining_qty = kg }

abbrev empty {ℓ} : {A : Type ℓ} → Table A
empty = record { next = 1; rows = [] }

abbrev org : Organisation
org = record { org_type = charity; rating_total = 0; rating_count = 0 }

abbrev shop : Db
shop = record {
  listings = record { next = 4; rows = (3, rolls) ∷ [] };
  food_items = record { next = 3; rows = (1, item (pos 6)) ∷ (2, item (pos 4)) ∷ [] };
  claims = empty;
  pickups = empty;
  organisations = record { next = 8; rows = (1, org) ∷ (7, org) ∷ [] };
  connections = empty;
  days = empty;
  sites = empty;
  users = empty;
  site_access = [];
  supports = [];
  activities = [];
}

abbrev helper : Caller
helper = record {
  user_id = 70;
  org_id = some 7;
  org_type = some charity;
  site_id = some 5;
  is_super_admin = false;
  is_org_admin = false;
  enterprise_role = none;
}

abbrev baker : Caller
baker = record helper { user_id = 10; org_id = some 1; site_id = none }

abbrev of_item : ℕ → ℤ → ClaimItem
of_item i kg = record { food_item_id = i; qty = kg }

abbrev all_of_it : CreateClaimDto
all_of_it = record { listing_id = 3; claim_mode = full; claim_items = [] }

abbrev some_of_it : CreateClaimDto
some_of_it = record {
  listing_id = 3;
  claim_mode = ClaimMode.partial;
  claim_items = of_item 1 (pos 5) ∷ of_item 2 (pos 1) ∷ [];
}

-- The same item twice: 5 kg and 5 kg, of 6 kg.
abbrev twice : CreateClaimDto
twice = record some_of_it { claim_items = of_item 1 (pos 5) ∷ of_item 1 (pos 5) ∷ [] }

abbrev requests : List Request
requests =
    claim 100 helper some_of_it
    ∷ confirm 110 baker 1
    ∷ collect 120 helper 1 (some 5)
    ∷ cancel helper 1
    ∷ feedback 130 baker 1 true (some 4)
    ∷ rate helper 1 3
    ∷ rate_pickup helper 1 4
    ∷ []

shop-IsConserved : IsConserved shop
unfolding sum_by ◌+ℤ◌
shop-IsConserved = record { by_listing = λ i l e. ground arith; by_item = λ i it e. ground arith }

-- What organisation 7 collected and what is left of the listing and of the items; the cancellation
-- and the second rating throw.
abbrev left_after : Db → Option FoodListing × Option FoodItem × Option Organisation
left_after db = (find 3 db.listings, find 1 db.food_items, find 1 db.organisations)

requests_test : left_after (serve requests shop) ≡ (
  some (record rolls {
    remaining_qty = pos 4;
    status = ListingStatus.partial;
    unique_claimant_count = 1;
  }),
  some (record { listing_id = 3; total_qty = pos 6; remaining_qty = pos 1 }),
  some (record { org_type = charity; rating_total = 5; rating_count = 1 }),
)
unfolding serve perform claim_listing assert_claimable assert_can_claim is_eligible claim_items_data
    check_items has_active_claim write_claim take_items upsert_support total_qty confirm_claim
    mark_collected collect_tx has_active_pickup cancel_claim submit_provider_feedback rate_claim
    rate_driver latest_delivery ◌+ℤ◌ ◌-ℤ◌
requests_test = refl

-- The id and the database that an accepted claim gives.
abbrev claimed : CreateClaimDto → FoodListing → List ClaimItem → ℕ × Db
claimed dto l items = write_claim 7 (some 5) dto l items shop

some-accepted :
    claim_listing 100 helper some_of_it shop ≡ ok (claimed some_of_it rolls some_of_it.claim_items)
unfolding claim_listing assert_claimable assert_can_claim is_eligible claim_items_data check_items
    has_active_claim
some-accepted = refl

twice-accepted : claim_listing 100 helper twice shop ≡ ok (claimed twice rolls twice.claim_items)
unfolding claim_listing assert_claimable assert_can_claim is_eligible claim_items_data check_items
    has_active_claim
twice-accepted = refl

claim_listing-MayClaim_example :
    (org : ℕ) × (org_type : OrgType) × (l : FoodListing) × (helper.org_id ≡ some org)
    × (helper.org_type ≡ some org_type)
    × (find 3 shop.listings ≡ some l)
    × MayClaim 100 org org_type l
    × (has_active_claim 3 org (some 5) [] ≡ false)
    × ((claimed some_of_it rolls some_of_it.claim_items).0 ≡ 1)
claim_listing-MayClaim_example =
    claim_listing-MayClaim 100 helper some_of_it shop
      (claimed some_of_it rolls some_of_it.claim_items) some-accepted

partial_claim_fits_example :
    (it' : FoodItem) × (find 1 (claimed some_of_it rolls some_of_it.claim_items).1.food_items
      ≡ some it')
    × (pos 0 ≤ℤ it'.remaining_qty)
partial_claim_fits_example =
    partial_claim_fits 100 helper some_of_it shop (claimed some_of_it rolls some_of_it.claim_items)
      refl some-accepted 1 (item (pos 6)) refl (refl, (refl, tt)) (omega arith)

claim_oversells_example :
    (out : ℕ × Db) × (claim_listing 100 helper (repeated some_of_it) shop ≡ ok out)
    × ((it' : FoodItem) × (find 1 out.1.food_items ≡ some it') × (it'.remaining_qty <ℤ pos 0))
unfolding qty_of ◌+ℤ◌
claim_oversells_example =
    claim_oversells 100 helper some_of_it shop (claimed some_of_it rolls some_of_it.claim_items)
      refl some-accepted 1 (item (pos 6)) refl (omega arith)

cancel_claim-claim_listing_example :
    (db' : Db) × (cancel_claim helper 1 (claimed some_of_it rolls some_of_it.claim_items).1
      ≡ ok db')
    × ((c : FoodClaim) × (find 1 db'.claims ≡ some c) × (c.status ≡ ClaimStatus.cancelled))
    × (cancel_claim helper 1 db' ≡ err (bad_request "Claim is already cancelled"))
    × ((i : ℕ) → find i db'.food_items ≡ find i shop.food_items)
    × (find 3 db'.listings
        ≡ some (record rolls { status = ListingStatus.active; unique_claimant_count = 1 }))
unfolding write_claim
cancel_claim-claim_listing_example =
    cancel_claim-claim_listing 100 helper some_of_it shop
      (claimed some_of_it rolls some_of_it.claim_items) rolls tt refl some-accepted

-- A pending claim of organisation 7.
abbrev held : FoodClaim
held = record {
  listing_id = 3;
  claimant_org_id = 7;
  claimant_site_id = none;
  claim_mode = full;
  status = pending;
  claim_items = [];
  rating = none;
  confirmed_at = none;
  collected_at = none;
  provider_confirmed_at = none;
  provider_rating = none;
  provider_did_collect = none;
}

abbrev with_claim : Db
with_claim = record shop { claims = record { next = 2; rows = (1, held) ∷ [] } }

collect_tx-once_example :
    collect_tx 121 7 1 none held rolls (collect_tx 120 7 1 (some 5) held rolls with_claim).1
    ≡ (false, (collect_tx 120 7 1 (some 5) held rolls with_claim).1)
unfolding collect_tx
collect_tx-once_example =
    collect_tx-once 120 121 7 7 1 (some 5) none held held rolls rolls with_claim refl
