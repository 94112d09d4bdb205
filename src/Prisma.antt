-- ===== src/Prisma.antt =====
-- The enums of prisma/schema.prisma that the modelled services branch on.
use svforb.Common.{ℕ, Bool, ◌==◌}

-- enum ConnectionStatus
pub data ConnectionStatus : Type 0 where
  pending active paused declined expired ended : ConnectionStatus

-- enum ConnectionDayOutcome
pub data ConnectionDayOutcome : Type 0 where
  prompted published no_surplus no_response collected released missed : ConnectionDayOutcome

-- enum ListingStatus
pub data ListingStatus : Type 0 where
  active partial claimed expired cancelled : ListingStatus

-- enum ListingReleaseReason
pub data ListingReleaseReason : Type 0 where
  charity_declined business_released auto_released partial_remainder : ListingReleaseReason

-- enum ClaimStatus
pub data ClaimStatus : Type 0 where
  pending confirmed collected cancelled : ClaimStatus

-- enum ClaimMode
pub data ClaimMode : Type 0 where
  full partial : ClaimMode

-- enum FoodListingType
pub data FoodListingType : Type 0 where
  human animal both : FoodListingType

-- enum OrgType
pub data OrgType : Type 0 where
  business_single business_multi charity charity_single charity_multi : OrgType
  farmer_producer farmer_consumer : OrgType

-- enum DriverPickupStatus
pub data DriverPickupStatus : Type 0 where
  assigned accepted en_route arrived collected cancelled : DriverPickupStatus

-- enum SiteRole
pub data SiteRole : Type 0 where
  site_admin staff driver : SiteRole

-- enum EnterpriseRole
pub data EnterpriseRole : Type 0 where
  super_admin enterprise_admin group_admin cluster_admin site_admin site_user : EnterpriseRole

-- `===` on an enum compares the names, and so the positions.
abbrev connection_status_rank : ConnectionStatus → ℕ
connection_status_rank ConnectionStatus.pending = 0
connection_status_rank ConnectionStatus.active = 1
connection_status_rank ConnectionStatus.paused = 2
connection_status_rank ConnectionStatus.declined = 3
connection_status_rank ConnectionStatus.expired = 4
connection_status_rank ConnectionStatus.ended = 5

abbrev pub connection_status_eq : ConnectionStatus → ConnectionStatus → Bool
connection_status_eq a b = connection_status_rank a == connection_status_rank b

abbrev outcome_rank : ConnectionDayOutcome → ℕ
outcome_rank prompted = 0
outcome_rank published = 1
outcome_rank no_surplus = 2
outcome_rank no_response = 3
outcome_rank ConnectionDayOutcome.collected = 4
outcome_rank released = 5
outcome_rank missed = 6

abbrev pub outcome_eq : ConnectionDayOutcome → ConnectionDayOutcome → Bool
outcome_eq a b = outcome_rank a == outcome_rank b

abbrev listing_status_rank : ListingStatus → ℕ
listing_status_rank ListingStatus.active = 0
listing_status_rank ListingStatus.partial = 1
listing_status_rank claimed = 2
listing_status_rank ListingStatus.expired = 3
listing_status_rank ListingStatus.cancelled = 4

abbrev pub listing_status_eq : ListingStatus → ListingStatus → Bool
listing_status_eq a b = listing_status_rank a == listing_status_rank b

abbrev claim_status_rank : ClaimStatus → ℕ
claim_status_rank ClaimStatus.pending = 0
claim_status_rank confirmed = 1
claim_status_rank ClaimStatus.collected = 2
claim_status_rank ClaimStatus.cancelled = 3

abbrev pub claim_status_eq : ClaimStatus → ClaimStatus → Bool
claim_status_eq a b = claim_status_rank a == claim_status_rank b

abbrev pickup_status_rank : DriverPickupStatus → ℕ
pickup_status_rank assigned = 0
pickup_status_rank accepted = 1
pickup_status_rank en_route = 2
pickup_status_rank arrived = 3
pickup_status_rank DriverPickupStatus.collected = 4
pickup_status_rank DriverPickupStatus.cancelled = 5

abbrev pub pickup_status_eq : DriverPickupStatus → DriverPickupStatus → Bool
pickup_status_eq a b = pickup_status_rank a == pickup_status_rank b

abbrev org_type_rank : OrgType → ℕ
org_type_rank business_single = 0
org_type_rank business_multi = 1
org_type_rank charity = 2
org_type_rank charity_single = 3
org_type_rank charity_multi = 4
org_type_rank farmer_producer = 5
org_type_rank farmer_consumer = 6

abbrev pub org_type_eq : OrgType → OrgType → Bool
org_type_eq a b = org_type_rank a == org_type_rank b
