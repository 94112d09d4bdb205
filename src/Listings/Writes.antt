-- ===== src/Listings/Writes.antt =====
-- What a listing that could be created or cancelled was written.
use svforb.Common.{ℕ, ◌≡◌, some, none, ◌≢◌, arith, Option-cases, inl, inr, ok}
use svforb.Common.Table.{find, update, lookup-modify_self}
use svforb.Prisma.{ListingStatus, claimed}
use svforb.Store.{FoodListing, Db}
use svforb.Claims.{Caller}
use svforb.Listings.{
  CreateFoodListingDto, own_site, own_listing, create_listing, write_listing, cancel_listing,
}
use svforb.Enterprise.Permissions.{assert_not_view_only}

abbrev pub withdrawn : FoodListing → FoodListing
withdrawn l = record l { status = ListingStatus.cancelled }

pub create_listing-writes :
    (caller : Caller) (dto : CreateFoodListingDto) (db : Db) {out : ℕ × Db}
    → create_listing caller dto db ≡ ok out
    → (org : ℕ) × (site_org : ℕ) × (write_listing org site_org dto db ≡ out)
unfolding create_listing
create_listing-writes caller dto db {out} done =
    elim (Option-cases (own_site caller dto.site_id db)) [
      | inl missing ↦ absurd (ground arith)
      | inr (site, found) ↦ elim (Option-cases caller.org_id) [
        | inl missing ↦ absurd (ground arith)
        | inr (org, present) ↦ (org, site.organisation_id, ground arith)
      ]
    ]

pub cancel_listing-writes :
    (caller : Caller) (id : ℕ) (db : Db) {out : Db}
    → cancel_listing caller id db ≡ ok out
    → record db { listings = update id withdrawn db.listings } ≡ out
unfolding cancel_listing
cancel_listing-writes caller id db {out} done = elim (Option-cases (own_listing caller id db)) [
  | inl missing ↦ absurd (ground arith)
  | inr (l, found) ↦ ground arith
]

-- A caller without an organisation, whose role is not view only, cancels any listing that is not
-- fully claimed, whosever it is.
pub cancel_listing-of_anyone :
    (caller : Caller) (id : ℕ) (db : Db) {l : FoodListing}
    → caller.org_id ≡ none
    → assert_not_view_only caller.enterprise_role ≡ ok tt
    → find id db.listings ≡ some l
    → l.status ≢ claimed
    → (out : Db) × (cancel_listing caller id db ≡ ok out)
      × (find id out.listings ≡ some (withdrawn l))
unfolding cancel_listing
cancel_listing-of_anyone caller id db {l} no_org may found open_listing = (
  record db { listings = update id withdrawn db.listings },
  ground arith,
  lookup-modify_self id withdrawn db.listings.rows found,
)
