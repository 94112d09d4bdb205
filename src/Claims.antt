-- ===== src/Claims.antt =====
-- src/modules/claims/services/claims.service.ts: the operations of `ClaimsService` that change
-- state, each from the database before it to its result and the database after it. An exception
-- leaves the database as it was. Caches, pushes and notifications, which come after the write and
-- whose failures are only logged, are not modelled.
pub mod Lifecycle
pub mod Feedback
pub mod Accepted
pub mod Admission
pub mod Oversell
pub mod Cancelling
pub mod Collecting
pub mod Ledger
pub mod Conservation
pub mod Repair
pub mod Service
mod Tests
use svforb.Common.{
  ℕ, ◌+◌, String, Bool, true, false, not, ◌&&◌, ◌||◌, Option, none, some, List, [], ◌∷◌, ◌++◌, ◌==◌,
  leb, is_some, opt_eq, any, if◌then◌else◌, Result, ok, err, ◌>>=◌, ◌>>◌, throw_if, or_throw,
  bad_request, forbidden, not_found, conflict,
}
use svforb.Common.Int.{ℤ, pos, ◌+ℤ◌, ◌-ℤ◌, ltb_ℤ, leb_ℤ}
use svforb.Common.Table.{Table, find, update, create, update_many}
use svforb.Prisma.{
  ListingStatus, ClaimStatus, ClaimMode, full, FoodListingType, human, animal, both, OrgType,
  charity, charity_single, charity_multi, farmer_consumer, DriverPickupStatus, published,
  EnterpriseRole, ConnectionDayOutcome, listing_status_eq, claim_status_eq, org_type_eq, outcome_eq,
}
use svforb.Store.{
  FoodListing, FoodItem, ClaimItem, FoodClaim, DriverPickup, Organisation, ConnectionDay, EventType,
  ListingActivity, Support, Db, claimed_full, claimed_partial, claim_confirmed, claim_cancelled,
  claim_collected, claim_rated, provider_confirmed, provider_disputed,
}
use svforb.Connection.Rules.{ExclusivityView, assert_can_claim, can_mark_connection_day_collected}

-- The caller of a request: interface Jwtpayload, with the site that `resolveCallerSiteId` found
-- and whether `orgRole` is SUPER_ADMIN or ORG_ADMIN.
pub record Caller : Type 0 where
  pub user_id : ℕ
  pub org_id : Option ℕ
  pub org_type : Option OrgType
  pub site_id : Option ℕ
  pub is_super_admin : Bool
  pub is_org_admin : Bool
  pub enterprise_role : Option EnterpriseRole

-- class CreateClaimDto
pub record CreateClaimDto : Type 0 where
  pub listing_id : ℕ
  pub claim_mode : ClaimMode
  pub claim_items : List ClaimItem

-- CLAIMANT_TYPES
abbrev pub claimant_types : FoodListingType → List OrgType
claimant_types human = charity ∷ charity_single ∷ charity_multi ∷ []
claimant_types animal = farmer_consumer ∷ []
claimant_types both = charity ∷ charity_single ∷ charity_multi ∷ farmer_consumer ∷ []

unfoldable pub is_eligible : FoodListingType → OrgType → Bool
is_eligible t org = any (λ x. org_type_eq x org) (claimant_types t)

-- `items.reduce((sum, ci) => sum + ci.qtyKg, 0)`
unfoldable pub total_qty : List ClaimItem → ℤ
total_qty [] = pos 0
total_qty (ci ∷ cis) = ci.qty +ℤ total_qty cis

abbrev pub exclusivity : FoodListing → ExclusivityView
exclusivity l = record {
  exclusive_to_org_id = l.exclusive_to_org_id;
  released_at = l.released_at;
  released_reason = l.released_reason;
}

abbrev pub is_open_status : ListingStatus → Bool
is_open_status s =
    listing_status_eq s ListingStatus.active || listing_status_eq s ListingStatus.partial

-- `t && t <= now`
abbrev pub is_past : Option ℕ → ℕ → Bool
is_past none now = false
is_past (some t) now = leb t now

-- The guards of `claimListing` on the listing itself.
unfoldable pub assert_claimable : ℕ → ℕ → OrgType → FoodListing → Result (Unit {0})
unfolding is_eligible
assert_claimable now org org_type l = do
  throw_if (not (is_open_status l.status)) (bad_request "Listing cannot be claimed")
  throw_if (leb l.best_before now) (bad_request "This listing has expired")
  throw_if (is_past l.pickup_by_time now)
      (bad_request "The pickup window for this listing has ended")
  throw_if (l.organisation_id == org) (forbidden "Cannot claim your own listing")
  assert_can_claim (exclusivity l) (some org)
  throw_if (not (is_eligible l.listing_type org_type))
      (forbidden "Your organisation type cannot claim these listings")

-- A full claim takes what is left of every item of the listing.
unfoldable pub available_items : ℕ → List (ℕ × FoodItem) → List ClaimItem
available_items listing [] = []
available_items listing ((i, item) ∷ rows) =
    let rest = available_items listing rows in
    if item.listing_id == listing && ltb_ℤ (pos 0) item.remaining_qty
    then (record { food_item_id = i; qty = item.remaining_qty }) ∷ rest
    else rest

-- `itemMap.get(id)` over the items of the listing
abbrev pub listing_item : Db → ℕ → ℕ → Option FoodItem
listing_item db listing i = elim (find i db.food_items) [
  | none ↦ none
  | some item ↦ if item.listing_id == listing then some item else none
]

-- The checks of a partial claim, one entry after the other.
pub check_items : Db → ℕ → List ClaimItem → Result (Unit {0})
check_items db listing [] = ok tt
check_items db listing (ci ∷ cis) = do
  item ←
      or_throw (listing_item db listing ci.food_item_id)
        (bad_request "Food item does not belong to this listing")
  throw_if (ltb_ℤ item.remaining_qty ci.qty) (bad_request "Only so much is remaining")
  check_items db listing cis

abbrev pub or_none_left : List ClaimItem → Result (List ClaimItem)
or_none_left [] = err (bad_request "No remaining quantity on this listing")
or_none_left (ci ∷ cis) = ok (ci ∷ cis)

abbrev pub or_required : List ClaimItem → Result (List ClaimItem)
or_required [] = err (bad_request "claimItems are required for a partial claim")
or_required (ci ∷ cis) = ok (ci ∷ cis)

-- `claimItemsData`, by the claim's mode
unfoldable pub claim_items_data : Db → CreateClaimDto → ClaimMode → Result (List ClaimItem)
claim_items_data db dto full = or_none_left (available_items dto.listing_id db.food_items.rows)
claim_items_data db dto ClaimMode.partial = do
  items ← or_required dto.claim_items
  check_items db dto.listing_id items
  ok items

-- The `where` of the search for a claim that the site already holds.
abbrev pub blocks_claim : ℕ → ℕ → Option ℕ → FoodClaim → Bool
blocks_claim listing org site c =
    c.listing_id == listing
    && c.claimant_org_id == org
    && not (claim_status_eq c.status ClaimStatus.cancelled)
    && (elim c.claimant_site_id [ none ↦ true | some s ↦ opt_eq site s ])

unfoldable pub has_active_claim : ℕ → ℕ → Option ℕ → List (ℕ × FoodClaim) → Bool
has_active_claim listing org site rows = any (λ row. blocks_claim listing org site row.1) rows

-- The decrements of a claim, and the increments of its cancellation, item by item.
pub take_items : List ClaimItem → Table FoodItem → Table FoodItem
take_items [] items = items
take_items (ci ∷ cis) items =
    take_items cis (
      update ci.food_item_id (λ it. record it { remaining_qty = it.remaining_qty -ℤ ci.qty }) items)

pub restore_items : List ClaimItem → Table FoodItem → Table FoodItem
restore_items [] items = items
restore_items (ci ∷ cis) items =
    restore_items cis (
      update ci.food_item_id (λ it. record it { remaining_qty = it.remaining_qty +ℤ ci.qty }) items)

-- `restaurantCharitySupport.upsert`
pub upsert_support : ℕ → ℕ → List Support → List Support
upsert_support restaurant org [] =
    (record { restaurant_org_id = restaurant; charity_org_id = org; total_claims_count = 1 }) ∷ []
upsert_support restaurant org (s ∷ rest) =
    if s.restaurant_org_id == restaurant && s.charity_org_id == org
    then record s { total_claims_count = s.total_claims_count + 1 } ∷ rest
    else s ∷ upsert_support restaurant org rest

abbrev pub log : ℕ → ℕ → EventType → Option ℤ → Db → Db
log listing org event amount db = record db {
  activities =
      db.activities
      ++ (record { listing_id = listing; actor_org_id = org; event_type = event; qty = amount })
        ∷ [];
}

abbrev pub status_after_claim : ℤ → ListingStatus
status_after_claim left =
    if leb_ℤ left (pos 0) then ListingStatus.claimed else ListingStatus.partial

abbrev claim_event : ClaimMode → EventType
claim_event full = claimed_full
claim_event ClaimMode.partial = claimed_partial

abbrev pub new_claim : ℕ → Option ℕ → CreateClaimDto → List ClaimItem → FoodClaim
new_claim org site dto items = record {
  listing_id = dto.listing_id;
  claimant_org_id = org;
  claimant_site_id = site;
  claim_mode = dto.claim_mode;
  status = ClaimStatus.pending;
  claim_items = items;
  rating = none;
  confirmed_at = none;
  collected_at = none;
  provider_confirmed_at = none;
  provider_rating = none;
  provider_did_collect = none;
}

-- The writes of the transaction of `claimListing`.
unfoldable pub write_claim :
    ℕ → Option ℕ → CreateClaimDto → FoodListing → List ClaimItem → Db → ℕ × Db
unfolding take_items upsert_support
write_claim org site dto l items db =
    let left = l.remaining_qty -ℤ total_qty items in
    let (id, claims) = create (new_claim org site dto items) db.claims in
    (
      id,
      log dto.listing_id org (claim_event dto.claim_mode) (some (total_qty items)) (record db {
        claims = claims;
        food_items = take_items items db.food_items;
        listings =
            update dto.listing_id
              (λ r. record r {
                remaining_qty = left;
                status = status_after_claim left;
                unique_claimant_count = r.unique_claimant_count + 1;
              })
              db.listings;
        supports = upsert_support l.organisation_id org db.supports;
      }),
    )

pub claim_listing : ℕ → Caller → CreateClaimDto → Db → Result (ℕ × Db)
claim_listing now caller dto db = do
  org ← or_throw caller.org_id (forbidden "Not part of an organisation")
  org_type ← or_throw caller.org_type (forbidden "Not part of an organisation")
  l ← or_throw (find dto.listing_id db.listings) (not_found "Listing not found")
  assert_claimable now org org_type l
  items ← claim_items_data db dto dto.claim_mode
  throw_if (has_active_claim dto.listing_id org caller.site_id db.claims.rows)
      (bad_request "You already have an active claim on this listing")
  ok (write_claim org caller.site_id dto l items db)
