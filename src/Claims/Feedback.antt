-- ===== src/Claims/Feedback.antt =====
-- claims.service.ts: `rateClaim`, `submitProviderFeedback` and `rateDriver`. Texts of notes are not
-- modelled.
use svforb.Common.{
  ℕ, Bool, true, false, not, ◌&&◌, ◌||◌, Option, none, some, List, [], ◌∷◌, ◌==◌, is_some,
  if◌then◌else◌, ltb, leb, Result, ok, ◌>>=◌, ◌>>◌, throw_if, or_throw, bad_request, forbidden,
  not_found, conflict,
}
use svforb.Common.Table.{find, update}
use svforb.Prisma.{ClaimStatus, DriverPickupStatus, claim_status_eq}
use svforb.Store.{DriverPickup, Db, claim_rated, provider_confirmed, provider_disputed}
use svforb.Claims.{Caller, log}
use svforb.Claims.Lifecycle.{rate_org}

unfoldable pub rate_claim : Caller → ℕ → ℕ → Db → Result Db
rate_claim caller id stars db = do
  org ← or_throw caller.org_id (forbidden "Not part of an organisation")
  claim ← or_throw (find id db.claims) (not_found "Claim not found")
  l ← or_throw (find claim.listing_id db.listings) (not_found "Claim not found")
  throw_if (not (claim.claimant_org_id == org))
      (forbidden "Only the claimant can rate this collection")
  throw_if (not (claim_status_eq claim.status ClaimStatus.collected))
      (bad_request "You can only rate a completed collection")
  throw_if (is_some claim.rating) (conflict "This collection has already been rated")
  ok (
      log claim.listing_id org claim_rated none (record db {
        claims = update id (λ c. record c { rating = some stars }) db.claims;
        organisations = rate_org l.organisation_id (some stars) db.organisations;
      }))

-- `dto.rating == null || dto.rating < 1`
abbrev no_stars : Option ℕ → Bool
no_stars none = true
no_stars (some stars) = ltb stars 1

unfoldable pub submit_provider_feedback : ℕ → Caller → ℕ → Bool → Option ℕ → Db → Result Db
submit_provider_feedback now caller id did_collect stars db = do
  org ← or_throw caller.org_id (forbidden "Not part of an organisation")
  throw_if (did_collect && no_stars stars) (bad_request "Please rate the collection partner")
  claim ← or_throw (find id db.claims) (not_found "Claim not found")
  l ← or_throw (find claim.listing_id db.listings) (not_found "Claim not found")
  throw_if (not (l.organisation_id == org))
      (forbidden "Only the listing provider can confirm this collection")
  throw_if (not (claim_status_eq claim.status ClaimStatus.collected))
      (bad_request "Wait until the partner has marked this as collected")
  throw_if (is_some claim.provider_confirmed_at || is_some claim.provider_rating)
      (conflict "You have already confirmed this collection")
  ok (
      log claim.listing_id org (if did_collect then provider_confirmed else provider_disputed) none
        (record db {
          claims =
              update id
                (λ c. record c {
                  provider_confirmed_at = some now;
                  provider_did_collect = some did_collect;
                  provider_rating = stars;
                })
                db.claims;
          organisations =
              rate_org claim.claimant_org_id (if did_collect then stars else none) db.organisations;
        }))

-- `orderBy: [{ collectedAt: 'desc' }, { createdAt: 'desc' }]`, where a null date comes first and
-- rows stand in the order of their creation.
abbrev not_older : Option ℕ → Option ℕ → Bool
not_older none other = true
not_older (some t) none = false
not_older (some t) (some u) = leb u t

abbrev is_delivery : ℕ → DriverPickup → Bool
is_delivery claim p =
    p.claim_id == claim && (elim p.status [ DriverPickupStatus.collected ↦ true | _ ↦ false ])

abbrev newer : ℕ × DriverPickup → Option (ℕ × DriverPickup) → Option (ℕ × DriverPickup)
newer row none = some row
newer row (some best) =
    if not_older row.1.collected_at best.1.collected_at then some row else some best

-- The latest collected pickup of a claim.
unfoldable pub latest_delivery :
    ℕ → List (ℕ × DriverPickup) → Option (ℕ × DriverPickup) → Option (ℕ × DriverPickup)
latest_delivery claim [] best = best
latest_delivery claim (row ∷ rows) best =
    latest_delivery claim rows (if is_delivery claim row.1 then newer row best else best)

unfoldable pub rate_driver : Caller → ℕ → ℕ → Db → Result Db
rate_driver caller id stars db = do
  org ← or_throw caller.org_id (forbidden "Not part of an organisation")
  claim ← or_throw (find id db.claims) (not_found "Claim not found")
  l ← or_throw (find claim.listing_id db.listings) (not_found "Claim not found")
  throw_if (not (claim.claimant_org_id == org) && not (l.organisation_id == org))
      (forbidden "Only the charity or food business can rate this driver")
  throw_if (not (claim_status_eq claim.status ClaimStatus.collected))
      (bad_request "You can only rate the driver after delivery")
  pickup ←
      or_throw (latest_delivery id db.pickups.rows none)
        (bad_request "No completed driver delivery found for this claim")
  throw_if (claim.claimant_org_id == org && is_some pickup.1.charity_driver_rating)
      (conflict "You have already rated this driver")
  throw_if (l.organisation_id == org && is_some pickup.1.restaurant_driver_rating)
      (conflict "You have already rated this driver")
  ok (record db {
    pickups =
        update pickup.0
          (λ p.
            if claim.claimant_org_id == org
            then record p { charity_driver_rating = some stars }
            else record p { restaurant_driver_rating = some stars })
          db.pickups;
  })
