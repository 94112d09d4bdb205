-- ===== src/Claims/Repair.antt =====
-- The repair of a claim whose driver has delivered while the claim still stands open: in
-- claims.service.ts (`getMyClaims`) and in driver.location.service.ts (`completePickup`).
use svforb.Common.{
  ℕ, suc, zero, true, false, ltb, Bool, ◌||◌, Option, none, some, List, [], ◌∷◌, ◌==◌, get_or,
  if◌then◌else◌,
}
use svforb.Common.Table.{find, update}
use svforb.Prisma.{ClaimStatus, DriverPickupStatus, claim_status_eq, pickup_status_eq}
use svforb.Store.{FoodListing, FoodClaim, DriverPickup, Db}
use svforb.Claims.{total_qty}
use svforb.Claims.Lifecycle.{close_days}

-- `status === COLLECTED || status === CANCELLED`
abbrev pub is_settled : ClaimStatus → Bool
is_settled s = claim_status_eq s ClaimStatus.collected || claim_status_eq s ClaimStatus.cancelled

-- The two writes of a repair: the claim, and the collection day of the listing.
unfoldable pub settle_claim : ℕ → ℕ → FoodClaim → FoodListing → ℕ → Db → Db
settle_claim collected_at id claim l listing db = record db {
  claims =
      update id (λ c. record c { status = ClaimStatus.collected; collected_at = some collected_at })
        db.claims;
  days = close_days l.status collected_at listing (total_qty claim.claim_items) db.days;
}

-- `collectedAt: 'desc'`; the database sorts a missing time first.
abbrev pub sorts_before : Option ℕ → Option ℕ → Bool
sorts_before none none = false
sorts_before none (some t) = true
sorts_before (some s) none = false
sorts_before (some s) (some t) = ltb t s

unfoldable pub insert_pickup : DriverPickup → List DriverPickup → List DriverPickup
insert_pickup p [] = p ∷ []
insert_pickup p (q ∷ qs) =
    let further = q ∷ insert_pickup p qs in
    if sorts_before p.collected_at q.collected_at then p ∷ q ∷ qs else further

-- The pickups of a claim, by `collectedAt` and then `createdAt`, both descending: rows stand in the
-- order in which they were created, so a later row comes before one with an equal time.
unfoldable pub sorted_pickups : ℕ → List (ℕ × DriverPickup) → List DriverPickup
unfolding insert_pickup
sorted_pickups claim [] = []
sorted_pickups claim (row ∷ rows) =
    let rest = sorted_pickups claim rows in
    if row.1.claim_id == claim then insert_pickup row.1 rest else rest

-- `.find((p) => p.status === COLLECTED)` on the first `n`
unfoldable pub first_collected : ℕ → List DriverPickup → Option DriverPickup
first_collected zero ps = none
first_collected (suc n) [] = none
first_collected (suc n) (p ∷ ps) =
    let rest = first_collected n ps in
    if pickup_status_eq p.status DriverPickupStatus.collected then some p else rest

-- The collected pickup among the three of the claim that `getMyClaims` reads.
unfoldable pub collected_pickup : ℕ → List (ℕ × DriverPickup) → Option DriverPickup
unfolding sorted_pickups first_collected
collected_pickup claim rows = first_collected 3 (sorted_pickups claim rows)

-- One round of the loop of `getMyClaims`, on a claim of the page that was read.
unfoldable pub heal_claim : ℕ → ℕ → Db → Db
unfolding collected_pickup settle_claim
heal_claim now id db = elim (find id db.claims) [
  | none ↦ db
  | some claim ↦
      if is_settled claim.status then db else (elim (collected_pickup id db.pickups.rows) [
        | none ↦ db
        | some p ↦ elim (find claim.listing_id db.listings) [
          | none ↦ db
          | some l ↦ settle_claim (get_or p.collected_at now) id claim l claim.listing_id db
        ]
      ])
]

-- The loop, over the ids of the page.
unfoldable pub heal_claims : ℕ → List ℕ → Db → Db
unfolding heal_claim
heal_claims now [] db = db
heal_claims now (id ∷ ids) db = heal_claims now ids (heal_claim now id db)
