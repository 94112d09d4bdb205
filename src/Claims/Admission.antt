-- ===== src/Claims/Admission.antt =====
-- Who may claim what: the guards of `claimListing` together.
use svforb.Common.{ℕ, ◌≡◌, ◌≢◌, ◌<◌, true, false, some, List, ok, arith, ◌⊎◌}
use svforb.Common.Table.{find}
use svforb.Prisma.{ListingStatus, OrgType}
use svforb.Store.{FoodListing, ClaimItem, Db}
use svforb.Connection.Rules.{can_access_listing, assert_can_claim}
use svforb.Claims.{
  Caller, CreateClaimDto, exclusivity, is_eligible, assert_claimable, has_active_claim, write_claim,
  claim_listing,
}
use svforb.Claims.Accepted.{claim_listing-Accepted}

-- What the listing and the claimant are like when a claim is accepted.
pub record MayClaim (now : ℕ) (org : ℕ) (org_type : OrgType) (l : FoodListing) : Type 0 where
  pub is_open : (l.status ≡ ListingStatus.active) ⊎ (l.status ≡ ListingStatus.partial)
  pub is_fresh : now < l.best_before
  pub in_time : (t : ℕ) → l.pickup_by_time ≡ some t → now < t
  pub of_another : l.organisation_id ≢ org
  pub accessible : can_access_listing (exclusivity l) (some org) ≡ true
  pub eligible : is_eligible l.listing_type org_type ≡ true

assert_claimable-MayClaim :
    (now org : ℕ) (org_type : OrgType) (l : FoodListing)
    → assert_claimable now org org_type l ≡ ok tt
    → MayClaim now org org_type l
unfolding assert_claimable assert_can_claim
assert_claimable-MayClaim now org org_type l h = record {
  is_open = ground arith;
  is_fresh = ground arith;
  in_time = λ t e. ground arith;
  of_another = ground arith;
  accessible = ground arith;
  eligible = ground arith;
}

-- A claim is accepted only from a member of an organisation of an eligible type, on a listing of
-- another organisation that is open, within its dates and accessible to the claimant, and only if
-- the claimant's site has no claim on it that is not cancelled. The new claim's id is the next one
-- of the table.
pub claim_listing-MayClaim :
    (now : ℕ) (caller : Caller) (dto : CreateClaimDto) (db : Db) (out : ℕ × Db)
    → claim_listing now caller dto db ≡ ok out
    → (org : ℕ) × (org_type : OrgType) × (l : FoodListing) × (caller.org_id ≡ some org)
      × (caller.org_type ≡ some org_type)
      × (find dto.listing_id db.listings ≡ some l)
      × MayClaim now org org_type l
      × (has_active_claim dto.listing_id org caller.site_id db.claims.rows ≡ false)
      × (out.0 ≡ db.claims.next)
unfolding write_claim
claim_listing-MayClaim now caller dto db out h =
    let a = claim_listing-Accepted now caller dto db out h in
    (
      a.org,
      a.org_type,
      a.l,
      a.is_caller,
      a.has_type,
      a.found,
      assert_claimable-MayClaim now a.org a.org_type a.l a.claimable,
      a.free,
      claim_id a.org a.l a.items a.written,
    )
  where
    claim_id :
        (org : ℕ) (l : FoodListing) (items : List ClaimItem)
        → write_claim org caller.site_id dto l items db ≡ out
        → out.0 ≡ db.claims.next
    claim_id org l items e = ground arith
