-- ===== src/Store.antt =====
-- The database that the services share: the tables of prisma/schema.prisma that they change, with
-- the columns that their decisions depend on. Weights are integers in a fixed unit (the program
-- keeps them as floats), so sums are exact. A rating average is kept as the sum of the ratings.
use svforb.Common.{ℕ, Option, List, Bool}
use svforb.Common.Int.{ℤ}
use svforb.Common.Table.{Table}
use svforb.Connection.Schedule.Clock.{Text, ScheduleInput}
use svforb.Prisma.{
  ConnectionStatus, ConnectionDayOutcome, ListingStatus, ListingReleaseReason, ClaimStatus,
  ClaimMode, FoodListingType, DriverPickupStatus, SiteRole, OrgType,
}

-- model FoodListing
pub record FoodListing : Type 0 where
  pub organisation_id : ℕ
  pub listing_type : FoodListingType
  pub total_qty : ℤ
  pub remaining_qty : ℤ
  pub best_before : ℕ
  pub pickup_from_time : Option ℕ
  pub pickup_by_time : Option ℕ
  pub status : ListingStatus
  pub unique_claimant_count : ℕ
  pub connection_id : Option ℕ
  pub exclusive_to_org_id : Option ℕ
  pub exclusive_until : Option ℕ
  pub released_at : Option ℕ
  pub released_reason : Option ListingReleaseReason

-- model FoodItem
pub record FoodItem : Type 0 where
  pub listing_id : ℕ
  pub total_qty : ℤ
  pub remaining_qty : ℤ

-- model ClaimItem
pub record ClaimItem : Type 0 where
  pub food_item_id : ℕ
  pub qty : ℤ

-- model FoodClaim, with its claim items
pub record FoodClaim : Type 0 where
  pub listing_id : ℕ
  pub claimant_org_id : ℕ
  pub claimant_site_id : Option ℕ
  pub claim_mode : ClaimMode
  pub status : ClaimStatus
  pub claim_items : List ClaimItem
  pub rating : Option ℕ
  pub confirmed_at : Option ℕ
  pub collected_at : Option ℕ
  pub provider_confirmed_at : Option ℕ
  pub provider_rating : Option ℕ
  pub provider_did_collect : Option Bool

-- model DriverPickup
pub record DriverPickup : Type 0 where
  pub driver_id : ℕ
  pub claim_id : ℕ
  pub listing_id : ℕ
  pub status : DriverPickupStatus
  pub arrived_at : Option ℕ
  pub collected_at : Option ℕ
  pub cancelled_at : Option ℕ
  pub restaurant_rating : Option ℕ
  pub charity_driver_rating : Option ℕ
  pub restaurant_driver_rating : Option ℕ

-- model Organisation: its type, `ratingAvg * ratingCount` and `ratingCount`
pub record Organisation : Type 0 where
  pub org_type : OrgType
  pub rating_total : ℕ
  pub rating_count : ℕ

-- model Site
pub record Site : Type 0 where
  pub organisation_id : ℕ
  pub is_active : Bool
  pub timezone : Option Text

-- model SiteAccess
pub record SiteAccess : Type 0 where
  pub user_id : ℕ
  pub site_id : ℕ
  pub organisation_id : ℕ
  pub site_role : SiteRole

-- model User
pub record User : Type 0 where
  pub is_active : Bool

-- model Connection
pub record Connection : Type 0 where
  pub donor_site_id : ℕ
  pub donor_org_id : ℕ
  pub receiver_site_id : ℕ
  pub receiver_org_id : ℕ
  pub status : ConnectionStatus
  pub schedule : ScheduleInput
  pub invitation_expires_at : Option ℕ

-- model ConnectionDay
pub record ConnectionDay : Type 0 where
  pub connection_id : ℕ
  pub scheduled_date : ℕ
  pub window_start_at : ℕ
  pub window_end_at : ℕ
  pub cutoff_at : ℕ
  pub outcome : ConnectionDayOutcome
  pub prompted_at : Option ℕ
  pub published_at : Option ℕ
  pub responded_at : Option ℕ
  pub released_at : Option ℕ
  pub listing_id : Option ℕ
  pub collected_qty : Option ℤ

-- The event types that the services write to the activity log.
pub data EventType : Type 0 where
  claimed_full claimed_partial claim_confirmed claim_cancelled claim_collected : EventType
  claim_rated provider_confirmed provider_disputed : EventType
  listing_created listing_expired : EventType

-- model ListingActivity
pub record ListingActivity : Type 0 where
  pub listing_id : ℕ
  pub actor_org_id : ℕ
  pub event_type : EventType
  pub qty : Option ℤ

-- model RestaurantCharitySupport
pub record Support : Type 0 where
  pub restaurant_org_id : ℕ
  pub charity_org_id : ℕ
  pub total_claims_count : ℕ

pub record Db : Type 0 where
  pub listings : Table FoodListing
  pub food_items : Table FoodItem
  pub claims : Table FoodClaim
  pub pickups : Table DriverPickup
  pub organisations : Table Organisation
  pub connections : Table Connection
  pub days : Table ConnectionDay
  pub sites : Table Site
  pub users : Table User
  pub site_access : List SiteAccess
  pub supports : List Support
  pub activities : List ListingActivity
