-- ===== src/Drivers/Effect/Operations.antt =====
-- driver.location.service.ts: the effect of each operation on the pickups.
use svforb.Common.{
  ℕ, ◌≡◌, refl, Bool, true, false, Option, none, some, ok, arith, ◌⊎◌, inl, inr, Option-cases,
  Bool-cases, ◌==◌, ◌||◌, ◌∙◌, get_or, List, [], ◌∷◌,
}
use svforb.Common.Table.{find, lookup-modify_self}
use svforb.Prisma.{ClaimStatus, DriverPickupStatus, assigned, accepted, arrived, pickup_status_eq}
use svforb.Store.{DriverPickup, FoodClaim, FoodListing, Db}
use svforb.Claims.Lifecycle.{has_active_pickup, or_keep}
use svforb.Claims.Repair.{is_settled, settle_claim, heal_claim, heal_claims}
use svforb.Drivers.{
  LiveDrivers, create_pickup, new_pickup, accept_pickup, own_pickup, set_status,
  update_pickup_status, delivered, deliver_claim, complete_tx, complete_pickup,
  assign_driver_to_pickup, answered, respond_to_pickup_assignment, active_pickup,
  decline_available_pickup,
}
use svforb.Drivers.Effect.{Effect, same, changed, created, may_step, SettledIn}

pub own_pickup-cases :
    (id driver_id : ℕ) (db : Db)
    → (own_pickup id driver_id db ≡ none)
      ⊎ ((p : DriverPickup) × (own_pickup id driver_id db ≡ some p)
          × (find id db.pickups ≡ some p)
          × (p.driver_id ≡ driver_id))
own_pickup-cases id driver_id db = elim (Option-cases (find id db.pickups)) [
  | inl e ↦ inl (ground arith)
  | inr (p, e) ↦ elim (Bool-cases (p.driver_id == driver_id)) [
    | inl own ↦ inr (p, ground arith, e, ground arith)
    | inr other ↦ inl (ground arith)
  ]
]

create_pickup-Effect :
    (driver_id claim listing : ℕ) (status : DriverPickupStatus) (db : Db) (out : ℕ × Db)
    → create_pickup driver_id claim listing status db ≡ ok out
    → has_active_pickup claim db.pickups.rows ≡ false
    → (pickup_status_eq status assigned || pickup_status_eq status accepted) ≡ true
    → Effect db out.1
unfolding create_pickup
create_pickup-Effect driver_id claim listing status db out h free new =
    created (new_pickup driver_id claim listing status) free new (ground arith)

module _ (live : LiveDrivers) (driver_id claim listing : ℕ) (db : Db) (out : ℕ × Db) where
  pub accept_pickup-Effect :
      accept_pickup live driver_id claim listing db ≡ ok out → Effect db out.1
  unfolding accept_pickup
  accept_pickup-Effect h =
      create_pickup-Effect driver_id claim listing accepted db out (ground arith) (ground arith)
        (ground arith)

  pub assign_driver_to_pickup-Effect :
      (org : ℕ)
      → assign_driver_to_pickup live org claim listing driver_id db ≡ ok out
      → Effect db out.1
  unfolding assign_driver_to_pickup
  assign_driver_to_pickup-Effect org h = elim (Option-cases (find claim db.claims)) [
    | inl e ↦ absurd (ground arith)
    | inr (c, e) ↦
        create_pickup-Effect driver_id claim listing assigned db out (ground arith) (ground arith)
          (ground arith)
  ]

module _ (now id driver_id : ℕ) (db db' : Db) where
  pub update_pickup_status-Effect :
      (status : DriverPickupStatus)
      → update_pickup_status now id driver_id status db ≡ ok db'
      → Effect db db'
  unfolding update_pickup_status may_step
  update_pickup_status-Effect status h = elim (own_pickup-cases id driver_id db) [
    | inl e ↦ absurd (ground arith)
    | inr (p, e, found, own) ↦
        changed id (set_status now status) p found (ground arith) (ground arith)
          (record {
            status = ground arith;
            same_driver = refl;
            same_claim = refl;
            same_listing = refl;
          })
          (λ delivered_now. absurd (ground arith))
  ]

  pub respond_to_pickup_assignment-Effect :
      (accept : Bool)
      → respond_to_pickup_assignment now id driver_id accept db ≡ ok db'
      → Effect db db'
  unfolding respond_to_pickup_assignment may_step
  respond_to_pickup_assignment-Effect accept h = elim (own_pickup-cases id driver_id db) [
    | inl e ↦ absurd (ground arith)
    | inr (p, e, found, own) ↦
        changed id (answered now accept) p found (ground arith) (ground arith)
          (record {
            status = ground arith;
            same_driver = ground arith;
            same_claim = ground arith;
            same_listing = ground arith;
          })
          (λ delivered_now. absurd (ground arith))
  ]

pub decline_available_pickup-Effect :
    (now driver_id claim_id : ℕ) (db db' : Db)
    → decline_available_pickup now driver_id claim_id db ≡ ok db'
    → Effect db db'
unfolding decline_available_pickup
decline_available_pickup-Effect now driver_id claim_id db db' h =
    elim (Option-cases (find claim_id db.claims)) [
      | inl e ↦ absurd (ground arith)
      | inr (c, ec) ↦ elim (Option-cases (active_pickup claim_id db.pickups.rows)) [
        | inl e ↦ same (ground arith)
        | inr (row, e) ↦
            respond_to_pickup_assignment-Effect now row.0 driver_id db db' false (ground arith)
      ]
    ]

-- After the transaction the claim of the pickup is collected or cancelled.
complete_tx-SettledIn :
    (now id : ℕ) (p : DriverPickup) (claim : FoodClaim) (l : FoodListing) (rating : Option ℕ)
    (db : Db)
    → find p.claim_id db.claims ≡ some claim
    → SettledIn p.claim_id (complete_tx now id p claim l rating db)
unfolding complete_tx deliver_claim
complete_tx-SettledIn now id p claim l rating db found =
    elim (Bool-cases (is_settled claim.status)) [
      | inl settled ↦ (claim, ground arith, settled)
      | inr open_claim ↦
          let collect : FoodClaim → FoodClaim = λ c. record c {
            status = ClaimStatus.collected;
            collected_at = some (get_or claim.collected_at now);
            rating = or_keep rating c.rating;
          } in
          (
            collect claim,
            ground (arith, lookup-modify_self p.claim_id collect db.claims.rows {r = claim}),
            refl,
          )
    ]

complete_tx-Effect :
    (now id : ℕ) (p : DriverPickup) (claim : FoodClaim) (l : FoodListing) (rating : Option ℕ)
    (db : Db)
    → find id db.pickups ≡ some p
    → p.status ≡ arrived
    → find p.claim_id db.claims ≡ some claim
    → Effect db (complete_tx now id p claim l rating db)
unfolding complete_tx deliver_claim may_step
complete_tx-Effect now id p claim l rating db found here found_claim =
    changed id (delivered (get_or claim.collected_at now) rating) p found (ground arith)
      (ground arith)
      (record { status = ground arith; same_driver = refl; same_claim = refl; same_listing = refl })
      (λ delivered_now. inr (complete_tx-SettledIn now id p claim l rating db found_claim))

pub complete_pickup-Effect :
    (now id driver_id : ℕ) (rating : Option ℕ) (db db' : Db)
    → complete_pickup now id driver_id rating db ≡ ok db'
    → Effect db db'
unfolding complete_pickup settle_claim
complete_pickup-Effect now id driver_id rating db db' h = elim (own_pickup-cases id driver_id db) [
  | inl e ↦ absurd (ground arith)
  | inr (p, e, found, own) ↦ elim (Option-cases (find p.claim_id db.claims)) [
    | inl ec ↦ absurd (ground arith)
    | inr (c, ec) ↦ elim (Option-cases (find c.listing_id db.listings)) [
      | inl el ↦ absurd (ground arith)
      | inr (l, el) ↦ elim (Bool-cases (pickup_status_eq p.status DriverPickupStatus.collected)) [
        | inl done ↦ same (ground arith)
        | inr open_pickup ↦
            let written : complete_tx now id p c l rating db ≡ db' = ground arith in
            let here : p.status ≡ arrived = ground arith in
            rw (← written) (complete_tx-Effect now id p c l rating db found here ec)
      ]
    ]
  ]
]

heal_claim-pickups : (now id : ℕ) (db : Db) → (heal_claim now id db).pickups ≡ db.pickups
unfolding heal_claim settle_claim
heal_claim-pickups now id db = ground arith

pub heal_claims-pickups :
    (now : ℕ) (ids : List ℕ) (db : Db) → (heal_claims now ids db).pickups ≡ db.pickups
unfolding heal_claims
heal_claims-pickups now [] db = refl
heal_claims-pickups now (id ∷ ids) db =
    heal_claims-pickups now ids (heal_claim now id db) ∙ heal_claim-pickups now id db
