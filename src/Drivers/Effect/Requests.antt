-- ===== src/Drivers/Effect/Requests.antt =====
-- The effect on the pickups of each request to the two services; the claim service only writes the
-- ratings of a driver.
use svforb.Common.{
  ℕ, ◌≡◌, Bool, true, Option, none, some, ok, arith, inl, inr, Option-cases, Bool-cases, >>=-eq-ok,
  ◌==◌, if◌then◌else◌,
}
use svforb.Common.Table.{find, modify-missing}
use svforb.Prisma.{DriverPickupStatus, claim_status_eq, ClaimStatus}
use svforb.Store.{DriverPickup, Db}
use svforb.Claims.{Caller, CreateClaimDto, claim_listing, write_claim}
use svforb.Claims.Accepted.{claim_listing-Accepted, Opened-cases}
use svforb.Claims.Lifecycle.{
  confirm_claim, cancel_claim, mark_collected, collect_tx, write_cancel, is_open_claim,
}
use svforb.Claims.Feedback.{rate_claim, submit_provider_feedback, rate_driver, latest_delivery}
use svforb.Claims.Repair.{heal_claims}
use svforb.Claims.Service as ClaimService
use svforb.Drivers.{accept_pickup, assign_driver_to_pickup}
use svforb.Drivers.Effect.{Effect, same, changed, may_step}
use svforb.Drivers.Effect.Operations.{
  accept_pickup-Effect, assign_driver_to_pickup-Effect, update_pickup_status-Effect,
  respond_to_pickup_assignment-Effect, decline_available_pickup-Effect, complete_pickup-Effect,
  heal_claims-pickups,
}
use svforb.Drivers.Service.{
  Request, on_claim, list_mine, accept, move, complete, assign, respond, decline, handle,
}

claim_listing-Effect :
    (now : ℕ) (caller : Caller) (dto : CreateClaimDto) (db : Db) (out : ℕ × Db)
    → claim_listing now caller dto db ≡ ok out
    → Effect db out.1
unfolding write_claim
claim_listing-Effect now caller dto db out h =
    let a = claim_listing-Accepted now caller dto db out h in
    let written = a.written in same (ground arith)

may_step_refl : (s : DriverPickupStatus) → may_step s s ≡ true
unfolding may_step
may_step_refl s = ground arith

module _ (caller : Caller) (id : ℕ) (db db' : Db) where
  confirm_claim-Effect : (now : ℕ) → confirm_claim now caller id db ≡ ok db' → Effect db db'
  unfolding confirm_claim
  confirm_claim-Effect now h = elim (Opened-cases caller id db) [
    | inl missing ↦ absurd (ground arith)
    | inr o ↦ same (ground arith)
  ]

  cancel_claim-Effect : cancel_claim caller id db ≡ ok db' → Effect db db'
  unfolding cancel_claim write_cancel
  cancel_claim-Effect h = elim (Opened-cases caller id db) [
    | inl missing ↦ absurd (ground arith)
    | inr o ↦ same (ground arith)
  ]

  rate_claim-Effect : (stars : ℕ) → rate_claim caller id stars db ≡ ok db' → Effect db db'
  unfolding rate_claim
  rate_claim-Effect stars h = elim (Opened-cases caller id db) [
    | inl missing ↦ absurd (ground arith)
    | inr o ↦ same (ground arith)
  ]

  feedback-Effect :
      (now : ℕ) (did_collect : Bool) (stars : Option ℕ)
      → submit_provider_feedback now caller id did_collect stars db ≡ ok db'
      → Effect db db'
  unfolding submit_provider_feedback
  feedback-Effect now did_collect stars h = elim (Opened-cases caller id db) [
    | inl missing ↦ absurd (ground arith)
    | inr o ↦ same (ground arith)
  ]

  rate_driver-Effect : (stars : ℕ) → rate_driver caller id stars db ≡ ok db' → Effect db db'
  unfolding rate_driver
  rate_driver-Effect stars h = elim (Opened-cases caller id db) [
    | inl missing ↦ absurd (ground arith)
    | inr o ↦ elim (Option-cases (latest_delivery id db.pickups.rows none)) [
      | inl e ↦ absurd (ground arith)
      | inr (row, e) ↦
          let g : DriverPickup → DriverPickup = λ r.
            if o.claim.claimant_org_id == o.org
            then record r { charity_driver_rating = some stars }
            else record r { restaurant_driver_rating = some stars } in
          elim (Option-cases (find row.0 db.pickups)) [
            | inl absent ↦ same (ground (arith, modify-missing row.0 g db.pickups.rows))
            | inr (p, found) ↦
                changed row.0 g p found (ground arith) (ground arith)
                  (record {
                    status = ground (arith, may_step_refl p.status);
                    same_driver = ground arith;
                    same_claim = ground arith;
                    same_listing = ground arith;
                  })
                  (λ delivered_now. inl (ground arith))
          ]
    ]
  ]

mark_collected-Effect :
    (now : ℕ) (caller : Caller) (id : ℕ) (stars : Option ℕ) (db : Db) (out : Bool × Db)
    → mark_collected now caller id stars db ≡ ok out
    → Effect db out.1
unfolding mark_collected collect_tx
mark_collected-Effect now caller id stars db out h = elim (Opened-cases caller id db) [
  | inl missing ↦ absurd (ground arith)
  | inr o ↦ elim (Bool-cases (claim_status_eq o.claim.status ClaimStatus.collected)) [
    | inl already ↦ same (ground arith)
    | inr fresh ↦ elim (Bool-cases (is_open_claim o.claim.status)) [
      | inl open_claim ↦ let found = o.found in same (ground arith)
      | inr closed ↦ absurd (ground arith)
    ]
  ]
]

perform-Effect :
    (r : ClaimService.Request) (db db' : Db) → ClaimService.perform r db ≡ ok db' → Effect db db'
unfolding ClaimService.perform
perform-Effect (ClaimService.claim now caller dto) db db' h =
    let (out, e, done) = >>=-eq-ok (claim_listing now caller dto db) (λ out. ok out.1) h in
    let done' : out.1 ≡ db' = ground arith in
    rw (← done') (claim_listing-Effect now caller dto db out e)
perform-Effect (ClaimService.confirm now caller id) db db' h =
    confirm_claim-Effect caller id db db' now h
perform-Effect (ClaimService.cancel caller id) db db' h = cancel_claim-Effect caller id db db' h
perform-Effect (ClaimService.collect now caller id stars) db db' h =
    let (out, e, done) = >>=-eq-ok (mark_collected now caller id stars db) (λ out. ok out.1) h in
    let done' : out.1 ≡ db' = ground arith in
    rw (← done') (mark_collected-Effect now caller id stars db out e)
perform-Effect (ClaimService.rate caller id stars) db db' h =
    rate_claim-Effect caller id db db' stars h
perform-Effect (ClaimService.feedback now caller id did_collect stars) db db' h =
    feedback-Effect caller id db db' now did_collect stars h
perform-Effect (ClaimService.rate_pickup caller id stars) db db' h =
    rate_driver-Effect caller id db db' stars h

-- Every request to either service.
pub handle-Effect : (r : Request) (db db' : Db) → handle r db ≡ ok db' → Effect db db'
unfolding handle
handle-Effect (on_claim r) db db' h = perform-Effect r db db' h
handle-Effect (list_mine now ids) db db' h =
    let done : heal_claims now ids db ≡ db' = ground arith in
    rw (← done) (same (heal_claims-pickups now ids db))
handle-Effect (accept live driver_id claim listing) db db' h =
    let (out, e, done) =
      >>=-eq-ok (accept_pickup live driver_id claim listing db) (λ out. ok out.1) h in
    let done' : out.1 ≡ db' = ground arith in
    rw (← done') (accept_pickup-Effect live driver_id claim listing db out e)
handle-Effect (move now id driver_id status) db db' h =
    update_pickup_status-Effect now id driver_id db db' status h
handle-Effect (complete now id driver_id rating) db db' h =
    complete_pickup-Effect now id driver_id rating db db' h
handle-Effect (assign live org claim listing driver_id) db db' h =
    let (out, e, done) =
      >>=-eq-ok (assign_driver_to_pickup live org claim listing driver_id db) (λ out. ok out.1) h in
    let done' : out.1 ≡ db' = ground arith in
    rw (← done') (assign_driver_to_pickup-Effect live driver_id claim listing db out org e)
handle-Effect (respond now id driver_id answer) db db' h =
    respond_to_pickup_assignment-Effect now id driver_id db db' answer h
handle-Effect (decline now driver_id claim) db db' h =
    decline_available_pickup-Effect now driver_id claim db db' h
