-- ===== src/Claims/Lifecycle.antt =====
-- claims.service.ts: `confirmClaim`, `cancelClaim` and `markCollected`.
use svforb.Common.{
  ℕ, ◌+◌, Bool, true, false, not, ◌&&◌, ◌||◌, Option, none, some, List, ◌==◌, any, opt_eq,
  if◌then◌else◌, Result, ok, ◌>>=◌, ◌>>◌, throw_if, or_throw, bad_request, forbidden, not_found,
}
use svforb.Common.Int.{ℤ, ◌+ℤ◌, leb_ℤ}
use svforb.Common.Table.{Table, find, update, update_many}
use svforb.Prisma.{
  ListingStatus, ClaimStatus, confirmed, ConnectionDayOutcome, published, DriverPickupStatus,
  assigned, accepted, en_route, arrived, listing_status_eq, claim_status_eq, outcome_eq,
}
use svforb.Store.{
  FoodListing, FoodClaim, DriverPickup, Organisation, ConnectionDay, Db, claim_confirmed,
  claim_cancelled, claim_collected,
}
use svforb.Connection.Rules.{can_mark_connection_day_collected}
use svforb.Claims.{Caller, total_qty, restore_items, log}

unfoldable pub confirm_claim : ℕ → Caller → ℕ → Db → Result Db
confirm_claim now caller id db = do
  org ← or_throw caller.org_id (forbidden "Not part of an organisation")
  claim ← or_throw (find id db.claims) (not_found "Claim not found")
  l ← or_throw (find claim.listing_id db.listings) (not_found "Claim not found")
  throw_if (not (l.organisation_id == org))
      (forbidden "Only the listing organisation can confirm a claim")
  throw_if (not (claim_status_eq claim.status ClaimStatus.pending)) (bad_request "Claim is already")
  ok (
      log claim.listing_id org claim_confirmed none (record db {
        claims =
            update id (λ c. record c { status = confirmed; confirmed_at = some now }) db.claims;
      }))

-- The status that a cancellation leaves the listing with, from its new remaining weight.
abbrev pub status_after_cancel : FoodListing → ℤ → ListingStatus
status_after_cancel l remaining =
    if not (listing_status_eq l.status ListingStatus.cancelled)
      && not (listing_status_eq l.status ListingStatus.expired)
    then if leb_ℤ l.total_qty remaining then ListingStatus.active else ListingStatus.partial
    else l.status

abbrev pub give_back : ℤ → FoodListing → FoodListing
give_back restored l = record l {
  remaining_qty = l.remaining_qty +ℤ restored;
  status = status_after_cancel l (l.remaining_qty +ℤ restored);
}

-- The writes of the transaction of `cancelClaim`.
unfoldable pub write_cancel : ℕ → ℕ → FoodClaim → Db → Db
unfolding restore_items
write_cancel org id claim db =
    log claim.listing_id org claim_cancelled (some (total_qty claim.claim_items)) (record db {
      food_items = restore_items claim.claim_items db.food_items;
      listings = update claim.listing_id (give_back (total_qty claim.claim_items)) db.listings;
      claims = update id (λ c. record c { status = ClaimStatus.cancelled }) db.claims;
    })

unfoldable pub cancel_claim : Caller → ℕ → Db → Result Db
cancel_claim caller id db = do
  org ← or_throw caller.org_id (forbidden "Not part of an organisation")
  claim ← or_throw (find id db.claims) (not_found "Claim not found")
  l ← or_throw (find claim.listing_id db.listings) (not_found "Claim not found")
  throw_if (not (claim.claimant_org_id == org) && not (l.organisation_id == org))
      (forbidden "Not authorised to cancel this claim")
  throw_if (claim_status_eq claim.status ClaimStatus.collected)
      (bad_request "Cannot cancel a collected claim")
  throw_if (claim_status_eq claim.status ClaimStatus.cancelled)
      (bad_request "Claim is already cancelled")
  ok (write_cancel org id claim db)

-- The statuses of a driver pickup that is under way.
abbrev pub is_active_pickup : DriverPickupStatus → Bool
is_active_pickup assigned = true
is_active_pickup accepted = true
is_active_pickup en_route = true
is_active_pickup arrived = true
is_active_pickup _ = false

unfoldable pub has_active_pickup : ℕ → List (ℕ × DriverPickup) → Bool
has_active_pickup claim rows =
    any (λ row. row.1.claim_id == claim && is_active_pickup row.1.status) rows

-- `status: { in: [CONFIRMED, PENDING] }`
abbrev pub is_open_claim : ClaimStatus → Bool
is_open_claim s = claim_status_eq s confirmed || claim_status_eq s ClaimStatus.pending

-- `(avg * count + rating) / (count + 1)` on the sum of the ratings
abbrev pub add_rating : ℕ → Organisation → Organisation
add_rating stars o = record o {
  rating_total = o.rating_total + stars;
  rating_count = o.rating_count + 1;
}

abbrev pub rate_org : ℕ → Option ℕ → Table Organisation → Table Organisation
rate_org org none t = t
rate_org org (some stars) t = update org (add_rating stars) t

abbrev pub or_keep : Option ℕ → Option ℕ → Option ℕ
or_keep none old = old
or_keep (some stars) old = some stars

abbrev pub close_day : ℕ → ℤ → ConnectionDay → ConnectionDay
close_day now kg d = record d {
  outcome = ConnectionDayOutcome.collected;
  collected_qty = some kg;
  responded_at = some now;
}

-- `connectionDay.updateMany({ where: { listingId, outcome: PUBLISHED } })`
abbrev pub is_published_day : ℕ → ConnectionDay → Bool
is_published_day listing d = opt_eq d.listing_id listing && outcome_eq d.outcome published

abbrev pub close_days : ListingStatus → ℕ → ℕ → ℤ → Table ConnectionDay → Table ConnectionDay
close_days status now listing kg t =
    if can_mark_connection_day_collected (some status)
    then update_many (is_published_day listing) (close_day now kg) t
    else t

-- The transaction of `markCollected`, on a claim and a listing that were read before it: it does
-- nothing, and says so, if the claim is not open any more.
unfoldable pub collect_tx : ℕ → ℕ → ℕ → Option ℕ → FoodClaim → FoodListing → Db → Bool × Db
collect_tx now org id rating claim l db = elim (find id db.claims) [
  | none ↦ (false, db)
  | some current ↦
      if is_open_claim current.status
      then (
        true,
        log claim.listing_id org claim_collected (some (total_qty claim.claim_items)) (record db {
          claims =
              update id
                (λ c. record c {
                  status = ClaimStatus.collected;
                  collected_at = some now;
                  rating = or_keep rating c.rating;
                })
                db.claims;
          organisations = rate_org l.organisation_id rating db.organisations;
          days = close_days l.status now claim.listing_id (total_qty claim.claim_items) db.days;
        }),
      )
      else (false, db)
]

-- `markCollected`: true if this call collected the claim, false if it was collected already.
unfoldable pub mark_collected : ℕ → Caller → ℕ → Option ℕ → Db → Result (Bool × Db)
unfolding has_active_pickup
mark_collected now caller id rating db = do
  org ← or_throw caller.org_id (forbidden "Not part of an organisation")
  claim ← or_throw (find id db.claims) (not_found "Claim not found")
  l ← or_throw (find claim.listing_id db.listings) (not_found "Claim not found")
  throw_if (not (claim.claimant_org_id == org))
      (forbidden "Only the claimant can mark as collected")
  if claim_status_eq claim.status ClaimStatus.collected
      then ok (false, db)
      else (throw_if (not (is_open_claim claim.status))
            (bad_request "Claim cannot be marked collected in its current status")
          >> throw_if (has_active_pickup id db.pickups.rows)
              (bad_request "This claim has an assigned driver.")
          >> ok (collect_tx now org id rating claim l db))
