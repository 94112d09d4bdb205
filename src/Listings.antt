-- ===== src/Listings.antt =====
-- src/modules/foodlisting: how a listing is created, cancelled and expired
-- (services/food.listing.service.ts, workers/listing.worker.ts, queues/listing.queue.service.ts),
-- and the site that a caller acts for (utils/resolve-caller-site.ts). Photos, addresses, searches,
-- caches and the queueing of jobs are not modelled.
pub mod Balance
pub mod Writes
pub mod Requests
pub mod Window
pub mod Expiry
mod Tests
use svforb.Common.{
  ℕ, suc, zero, ◌+◌, ◌*◌, Bool, true, false, not, ◌&&◌, ◌||◌, Option, none, some, List, [], ◌∷◌,
  ◌==◌, leb, ltb, min, max, opt_eq, is_some, is_none, if◌then◌else◌, Result, ok, err, ◌>>=◌, ◌>>◌,
  throw_if, or_throw, bad_request, forbidden, not_found, value_missing,
}
use svforb.Common.Int.{ℤ, pos, ◌+ℤ◌}
use svforb.Common.Table.{Table, find, update, update_many, create}
use svforb.Prisma.{ListingStatus, FoodListingType, ConnectionDayOutcome, missed, listing_status_eq}
use svforb.Store.{
  FoodListing, Site, SiteAccess, ConnectionDay, Db, listing_created, listing_expired,
}
use svforb.Claims.{Caller, log, is_open_status, is_past}
use svforb.Claims.Lifecycle.{is_published_day}
use svforb.Connection.Daily.{create_items, total_kg}
use svforb.Enterprise.Permissions.{assert_not_view_only}

-- class CreateFoodListingDto, with the weights of its food items
pub record CreateFoodListingDto : Type 0 where
  pub site_id : ℕ
  pub listing_type : FoodListingType
  pub food_items : List ℤ
  pub best_before : ℕ
  pub pickup_from_time : Option ℕ
  pub pickup_by_time : Option ℕ

-- `where: { organisationId: caller.orgId }`: the client takes an undefined value as no condition.
abbrev pub matches_org : Option ℕ → ℕ → Bool
matches_org none org = true
matches_org (some wanted) org = wanted == org

abbrev pub own_site : Caller → ℕ → Db → Option Site
own_site caller id db = elim (find id db.sites) [
  | none ↦ none
  | some s ↦ if matches_org caller.org_id s.organisation_id && s.is_active then some s else none
]

abbrev is_empty : List ℤ → Bool
is_empty [] = true
is_empty (kg ∷ rest) = false

-- A best-before time inside the pickup window is moved to its end.
abbrev pub best_before_for : CreateFoodListingDto → ℕ
best_before_for dto = elim dto.pickup_by_time [
  | none ↦ dto.best_before
  | some by ↦ if ltb dto.best_before by then by else dto.best_before
]

abbrev pub new_listing : ℕ → CreateFoodListingDto → FoodListing
new_listing org dto = record {
  organisation_id = org;
  listing_type = dto.listing_type;
  total_qty = total_kg dto.food_items;
  remaining_qty = total_kg dto.food_items;
  best_before = best_before_for dto;
  pickup_from_time = dto.pickup_from_time;
  pickup_by_time = dto.pickup_by_time;
  status = ListingStatus.active;
  unique_claimant_count = 0;
  connection_id = none;
  exclusive_to_org_id = none;
  exclusive_until = none;
  released_at = none;
  released_reason = none;
}

-- The writes of `createListing`.
pub write_listing : ℕ → ℕ → CreateFoodListingDto → Db → ℕ × Db
write_listing org site_org dto db =
    let made = create (new_listing org dto) db.listings in
    (
      made.0,
      log made.0 site_org listing_created none (record db {
        listings = made.1;
        food_items = create_items made.0 dto.food_items db.food_items;
      }),
    )

pub create_listing : Caller → CreateFoodListingDto → Db → Result (ℕ × Db)
create_listing caller dto db = do
  assert_not_view_only caller.enterprise_role
  throw_if (is_empty dto.food_items) (bad_request "At least one food item is required")
  site ← or_throw (own_site caller dto.site_id db) (not_found "Site not found in your organisation")
  org ← or_throw caller.org_id value_missing
  ok (write_listing org site.organisation_id dto db)

abbrev pub own_listing : Caller → ℕ → Db → Option FoodListing
own_listing caller id db = elim (find id db.listings) [
  | none ↦ none
  | some l ↦ if matches_org caller.org_id l.organisation_id then some l else none
]

pub cancel_listing : Caller → ℕ → Db → Result Db
cancel_listing caller id db = do
  assert_not_view_only caller.enterprise_role
  l ← or_throw (own_listing caller id db) (not_found "Listing not found")
  throw_if (listing_status_eq l.status ListingStatus.claimed)
      (forbidden "Cannot cancel a fully claimed listing")
  ok (record db {
    listings = update id (λ r. record r { status = ListingStatus.cancelled }) db.listings;
  })

abbrev pub expiry_fallback : ℕ
expiry_fallback = 2 * 60 * 60 * 1000

-- `resolveListingExpiryAt`, with the time of the call
pub resolve_listing_expiry_at : ℕ → Option ℕ → Option ℕ → ℕ
resolve_listing_expiry_at now none none = now + expiry_fallback
resolve_listing_expiry_at now none (some best) = best
resolve_listing_expiry_at now (some by) none = by
resolve_listing_expiry_at now (some by) (some best) = min by best

-- `exclusiveToOrgId && !releasedAt`
abbrev pub is_reserved : FoodListing → Bool
is_reserved l = is_some l.exclusive_to_org_id && is_none l.released_at

-- The transaction of `expireListingIfDue`.
pub write_expiry : ℕ → ℕ → FoodListing → Db → Db
write_expiry now id l db = log id l.organisation_id listing_expired none (record db {
  listings = update id (λ r. record r { status = ListingStatus.expired }) db.listings;
  days =
      update_many (is_published_day id)
        (λ d. record d { outcome = missed; responded_at = some now }) db.days;
})

-- `expireListingIfDue`: whether it expired the listing, and the database. A job that is early is
-- queued again; `forceIfPastDeadline` only keeps it from that.
pub expire_listing_if_due : ℕ → ℕ → Db → Bool × Db
unfolding resolve_listing_expiry_at write_expiry
expire_listing_if_due now id db = elim (find id db.listings) [
  | none ↦ (false, db)
  | some l ↦
      if is_reserved l
      then (false, db)
      else if not (is_open_status l.status)
      then (false, db)
      else if ltb now (resolve_listing_expiry_at now l.pickup_by_time (some l.best_before))
      then (false, db)
      else (true, write_expiry now id l db)
]

-- The `where` of the sweep.
abbrev pub is_overdue : ℕ → FoodListing → Bool
is_overdue now l =
    is_open_status l.status
    && (is_past l.pickup_by_time now || leb l.best_before now)
    && (is_none l.exclusive_to_org_id || is_some l.released_at)

-- The ids of the first `n` rows that the sweep finds; ids grow in the order of the rows.
pub overdue_ids : ℕ → ℕ → List (ℕ × FoodListing) → List ℕ
overdue_ids now zero rows = []
overdue_ids now (suc n) [] = []
overdue_ids now (suc n) ((id, l) ∷ rows) =
    let found = overdue_ids now n rows in
    let skipped = overdue_ids now (suc n) rows in if is_overdue now l then id ∷ found else skipped

pub expire_each : ℕ → List ℕ → Db → Db
unfolding expire_listing_if_due
expire_each now [] db = db
expire_each now (id ∷ ids) db = expire_each now ids (expire_listing_if_due now id db).1

-- `handleSweepExpiredListings`
pub handle_sweep_expired_listings : ℕ → Db → Db
unfolding overdue_ids expire_each
handle_sweep_expired_listings now db = expire_each now (overdue_ids now 200 db.listings.rows) db

-- The caller's active sites among those with access, in the order in which it was granted.
pub first_access : Caller → ℕ → List SiteAccess → Db → Option ℕ
first_access caller org [] db = none
first_access caller org (a ∷ rest) db =
    let more = first_access caller org rest db in
    if a.user_id == caller.user_id
      && a.organisation_id == org
      && (elim (find a.site_id db.sites) [ none ↦ false | some s ↦ s.is_active ])
    then some a.site_id
    else more

pub first_site : ℕ → List (ℕ × Site) → Option ℕ
first_site org [] = none
first_site org ((id, s) ∷ rows) =
    let more = first_site org rows in
    if s.organisation_id == org && s.is_active then some id else more

-- `resolveCallerSiteId`; ids are not 0
pub resolve_caller_site_id : Caller → Db → Option ℕ
unfolding first_access first_site
resolve_caller_site_id caller db = elim caller.site_id [
  | some site ↦ some site
  | none ↦ elim caller.org_id [
    | none ↦ none
    | some org ↦ elim (first_access caller org db.site_access db) [
      | some site ↦ some site
      | none ↦ if caller.is_super_admin then first_site org db.sites.rows else none
    ]
  ]
]
