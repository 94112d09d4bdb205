-- ===== src/Drivers/Effect/Collecting.antt =====
-- What a driver's request, and the repair of a page of claims, does to the claims.
use svforb.Common.{
  ℕ, ◌≡◌, refl, Bool, false, Option, some, ok, arith, inl, inr, Bool-cases, Option-cases, get_or,
}
use svforb.Common.Table.{find, modify}
use svforb.Prisma.{ClaimStatus, DriverPickupStatus, assigned, accepted, pickup_status_eq}
use svforb.Store.{DriverPickup, FoodClaim, FoodListing, Db}
use svforb.Claims.Lifecycle.{or_keep}
use svforb.Claims.Repair.{is_settled, settle_claim, collected_pickup, heal_claim}
use svforb.Drivers.{
  LiveDrivers, create_pickup, accept_pickup, update_pickup_status, deliver_claim, complete_tx,
  complete_pickup, assign_driver_to_pickup, respond_to_pickup_assignment, decline_available_pickup,
  own_pickup, active_pickup,
}

-- A write that leaves listings and items alone and changes at most one claim: an open one, which
-- it collects.
pub data Collects (db db' : Db) : Type 0 where
  same :
      db'.claims ≡ db.claims
      → db'.listings ≡ db.listings
      → db'.food_items ≡ db.food_items
      → Collects db db'
  collects :
      (id : ℕ) (g : FoodClaim → FoodClaim) (old : FoodClaim)
      → find id db.claims ≡ some old
      → is_settled old.status ≡ false
      → db'.claims.rows ≡ modify id g db.claims.rows
      → db'.listings ≡ db.listings
      → db'.food_items ≡ db.food_items
      → (g old).status ≡ ClaimStatus.collected
      → (g old).listing_id ≡ old.listing_id
      → (g old).claimant_org_id ≡ old.claimant_org_id
      → (g old).claim_items ≡ old.claim_items
      → Collects db db'

settle_claim-Collects :
    (t id listing : ℕ) (c : FoodClaim) (l : FoodListing) (db : Db)
    → find id db.claims ≡ some c
    → is_settled c.status ≡ false
    → Collects db (settle_claim t id c l listing db)
unfolding settle_claim
settle_claim-Collects t id listing c l db found open_claim =
    collects id (λ r. record r { status = ClaimStatus.collected; collected_at = some t }) c found
      open_claim refl refl refl refl refl refl refl

pub heal_claim-Collects : (now id : ℕ) (db : Db) → Collects db (heal_claim now id db)
unfolding heal_claim
heal_claim-Collects now id db = elim (Option-cases (find id db.claims)) [
  | inl e ↦ same (ground arith) (ground arith) (ground arith)
  | inr (c, ec) ↦ elim (Bool-cases (is_settled c.status)) [
    | inl settled ↦ same (ground arith) (ground arith) (ground arith)
    | inr open_claim ↦ elim (Option-cases (collected_pickup id db.pickups.rows)) [
      | inl e ↦ same (ground arith) (ground arith) (ground arith)
      | inr (p, ep) ↦ elim (Option-cases (find c.listing_id db.listings)) [
        | inl e ↦ same (ground arith) (ground arith) (ground arith)
        | inr (l, el) ↦
            let written : settle_claim (get_or p.collected_at now) id c l c.listing_id db
                ≡ heal_claim now id db =
              ground arith in
            rw (← written) (
              settle_claim-Collects (get_or p.collected_at now) id c.listing_id c l db ec
                open_claim)
      ]
    ]
  ]
]

complete_tx-Collects :
    (now id : ℕ) (p : DriverPickup) (c : FoodClaim) (l : FoodListing) (rating : Option ℕ) (db : Db)
    → find p.claim_id db.claims ≡ some c
    → Collects db (complete_tx now id p c l rating db)
unfolding complete_tx deliver_claim
complete_tx-Collects now id p c l rating db found = elim (Bool-cases (is_settled c.status)) [
  | inl settled ↦ same (ground arith) (ground arith) (ground arith)
  | inr open_claim ↦
      collects p.claim_id
        (λ r. record r {
          status = ClaimStatus.collected;
          collected_at = some (get_or c.collected_at now);
          rating = or_keep rating r.rating;
        })
        c found open_claim (ground arith) (ground arith) (ground arith) refl refl refl refl
]

pub complete_pickup-Collects :
    (now id driver_id : ℕ) (rating : Option ℕ) (db db' : Db)
    → complete_pickup now id driver_id rating db ≡ ok db'
    → Collects db db'
unfolding complete_pickup
complete_pickup-Collects now id driver_id rating db db' h =
    elim (Option-cases (own_pickup id driver_id db)) [
      | inl e ↦ absurd (ground arith)
      | inr (p, e) ↦ elim (Option-cases (find p.claim_id db.claims)) [
        | inl ec ↦ absurd (ground arith)
        | inr (c, ec) ↦ elim (Option-cases (find c.listing_id db.listings)) [
          | inl el ↦ absurd (ground arith)
          | inr (l, el) ↦
              elim (Bool-cases (pickup_status_eq p.status DriverPickupStatus.collected)) [
                | inl done ↦ elim (Bool-cases (is_settled c.status)) [
                  | inl settled ↦ same (ground arith) (ground arith) (ground arith)
                  | inr open_claim ↦
                      let t = get_or p.collected_at now in
                      let written : settle_claim t p.claim_id c l p.listing_id db ≡ db' =
                        ground arith in
                      rw (← written)
                        (settle_claim-Collects t p.claim_id p.listing_id c l db ec open_claim)
                ]
                | inr open_pickup ↦
                    let written : complete_tx now id p c l rating db ≡ db' = ground arith in
                    rw (← written) (complete_tx-Collects now id p c l rating db ec)
              ]
        ]
      ]
    ]

create_pickup-Collects :
    (driver_id claim listing : ℕ) (status : DriverPickupStatus) (db : Db) (out : ℕ × Db)
    → create_pickup driver_id claim listing status db ≡ ok out
    → Collects db out.1
unfolding create_pickup
create_pickup-Collects driver_id claim listing status db out h =
    same (ground arith) (ground arith) (ground arith)

pub accept_pickup-Collects :
    (live : LiveDrivers) (driver_id claim listing : ℕ) (db : Db) (out : ℕ × Db)
    → accept_pickup live driver_id claim listing db ≡ ok out
    → Collects db out.1
unfolding accept_pickup
accept_pickup-Collects live driver_id claim listing db out h =
    create_pickup-Collects driver_id claim listing accepted db out (ground arith)

pub assign_driver_to_pickup-Collects :
    (live : LiveDrivers) (org claim listing driver_id : ℕ) (db : Db) (out : ℕ × Db)
    → assign_driver_to_pickup live org claim listing driver_id db ≡ ok out
    → Collects db out.1
unfolding assign_driver_to_pickup
assign_driver_to_pickup-Collects live org claim listing driver_id db out h =
    elim (Option-cases (find claim db.claims)) [
      | inl e ↦ absurd (ground arith)
      | inr (c, e) ↦ create_pickup-Collects driver_id claim listing assigned db out (ground arith)
    ]

module _ (now id driver_id : ℕ) (db db' : Db) where
  pub update_pickup_status-Collects :
      (status : DriverPickupStatus)
      → update_pickup_status now id driver_id status db ≡ ok db'
      → Collects db db'
  unfolding update_pickup_status
  update_pickup_status-Collects status h = elim (Option-cases (own_pickup id driver_id db)) [
    | inl e ↦ absurd (ground arith)
    | inr (p, e) ↦ same (ground arith) (ground arith) (ground arith)
  ]

  pub respond_to_pickup_assignment-Collects :
      (answer : Bool)
      → respond_to_pickup_assignment now id driver_id answer db ≡ ok db'
      → Collects db db'
  unfolding respond_to_pickup_assignment
  respond_to_pickup_assignment-Collects answer h =
      elim (Option-cases (own_pickup id driver_id db)) [
        | inl e ↦ absurd (ground arith)
        | inr (p, e) ↦ same (ground arith) (ground arith) (ground arith)
      ]

pub decline_available_pickup-Collects :
    (now driver_id claim_id : ℕ) (db db' : Db)
    → decline_available_pickup now driver_id claim_id db ≡ ok db'
    → Collects db db'
unfolding decline_available_pickup
decline_available_pickup-Collects now driver_id claim_id db db' h =
    elim (Option-cases (find claim_id db.claims)) [
      | inl e ↦ absurd (ground arith)
      | inr (c, ec) ↦ elim (Option-cases (active_pickup claim_id db.pickups.rows)) [
        | inl e ↦ same (ground arith) (ground arith) (ground arith)
        | inr (row, e) ↦
            respond_to_pickup_assignment-Collects now row.0 driver_id db db' false (ground arith)
      ]
    ]
