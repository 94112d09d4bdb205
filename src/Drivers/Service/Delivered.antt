-- ===== src/Drivers/Service/Delivered.antt =====
-- The claim of a delivered pickup, and the repair of a page of claims.
use svforb.Common.{
  ℕ, suc, zero, sym, ◌⊎◌, ◌≡◌, refl, true, List, ◌∷◌, [], some, ok, arith, ◌==◌, inl, inr,
  Bool-cases, Option-cases, In,
}
use svforb.Common.Table.{find, In-modify, In-append, lookup-In}
use svforb.Prisma.{pickup_status_eq, DriverPickupStatus}
use svforb.Store.{DriverPickup, Db}
use svforb.Claims.Repair.{
  sorts_before, insert_pickup, sorted_pickups, first_collected, collected_pickup, heal_claim,
  heal_claims,
}
use svforb.Claims.Service.Statuses.{may_become, AllFollow-refl}
use svforb.Drivers.Effect.{Effect, is_delivered, SettledIn}
use svforb.Drivers.Effect.Requests.{handle-Effect}
use svforb.Drivers.Service.{Request, handle, handle_all, handle_all-keeps}
use svforb.Drivers.Service.Balance.{FollowsFrom, handle-FollowsFrom}

-- The claim of every delivered pickup is collected or cancelled.
abbrev pub IsDelivered : Db → Type 0
IsDelivered db =
    (row : ℕ × DriverPickup)
    → In row db.pickups.rows
    → is_delivered row.1 ≡ true
    → SettledIn row.1.claim_id db

SettledIn-later : (id : ℕ) (db db' : Db) → FollowsFrom db db' → SettledIn id db → SettledIn id db'
unfolding may_become
SettledIn-later id db db' f (c, found, settled) =
    let (c', found', step) = f id c found in let status = step.status in (c', found', ground arith)

Effect-IsDelivered :
    (db db' : Db) → Effect db db' → FollowsFrom db db' → IsDelivered db → IsDelivered db'
Effect-IsDelivered db db' (Effect.same e) f d row here delivered =
    SettledIn-later row.1.claim_id db db' f (d row (rw e at here) delivered)
Effect-IsDelivered db db' (Effect.changed id g old found written next step settles) f d row here
      delivered =
    elim (In-modify row id g db.pickups.rows (rw written at here)) [
      | inl kept ↦ SettledIn-later row.1.claim_id db db' f (d row kept delivered)
      | inr (q, found_q, same) ↦
          let is_old : q ≡ old = ground arith in
          let is_new : row.1 ≡ g old = ground arith in
          let same_claim : row.1.claim_id ≡ old.claim_id = rw is_new step.same_claim in
          rw same_claim (elim (settles (rw (← is_new) delivered)) [
            | inl before ↦
                SettledIn-later old.claim_id db db' f
                  (d (id, old) (lookup-In id db.pickups.rows found) before)
            | inr settled ↦ settled
          ])
    ]
Effect-IsDelivered db db' (Effect.created new free is_new e) f d row here delivered =
    elim (In-append row (db.pickups.next, new) db.pickups.rows (rw e at here)) [
      | inl kept ↦ SettledIn-later row.1.claim_id db db' f (d row kept delivered)
      | inr fresh ↦ absurd (ground arith)
    ]

handle-IsDelivered :
    (r : Request) (db db' : Db) → IsDelivered db → handle r db ≡ ok db' → IsDelivered db'
handle-IsDelivered r db db' d h =
    Effect-IsDelivered db db' (handle-Effect r db db' h)
      (handle-FollowsFrom db r db db' (AllFollow-refl db.claims.rows) h) d

-- However many requests either service serves one after the other, the claim of every collected
-- pickup is collected or cancelled, if that holds before.
pub handle_all-IsDelivered :
    (rs : List Request) (db : Db) → IsDelivered db → IsDelivered (handle_all rs db)
handle_all-IsDelivered = handle_all-keeps IsDelivered handle-IsDelivered

In-insert_pickup :
    (p q : DriverPickup) (qs : List DriverPickup) → In p (insert_pickup q qs) → (p ≡ q) ⊎ In p qs
unfolding insert_pickup
In-insert_pickup p q [] (inl e) = inl (sym e)
In-insert_pickup p q [] (inr h) = absurd h
In-insert_pickup p q (x ∷ qs) h = elim (Bool-cases (sorts_before q.collected_at x.collected_at)) [
  | inl before ↦ elim (rw before at h) [ inl e ↦ inl (sym e) | inr later ↦ inr later ]
  | inr after ↦ elim (rw after at h) [
    | inl e ↦ inr (inl e)
    | inr later ↦ elim (In-insert_pickup p q qs later) [ inl e ↦ inl e | inr old ↦ inr (inr old) ]
  ]
]

In-sorted_pickups :
    (claim : ℕ) (p : DriverPickup) (rows : List (ℕ × DriverPickup))
    → In p (sorted_pickups claim rows)
    → (id : ℕ) × In (id, p) rows × (p.claim_id ≡ claim)
unfolding sorted_pickups
In-sorted_pickups claim p [] h = absurd h
In-sorted_pickups claim p (row ∷ rows) h = elim (Bool-cases (row.1.claim_id == claim)) [
  | inl its ↦ elim (In-insert_pickup p row.1 (sorted_pickups claim rows) (rw its at h)) [
    | inl e ↦ (row.0, inl (ground arith), ground arith)
    | inr further ↦
        let (id, later, same) = In-sorted_pickups claim p rows further in (id, inr later, same)
  ]
  | inr other ↦
      let (id, later, same) = In-sorted_pickups claim p rows (rw other at h) in
      (id, inr later, same)
]

first_collected-In :
    (n : ℕ) (ps : List DriverPickup) {p : DriverPickup}
    → first_collected n ps ≡ some p
    → In p ps × (is_delivered p ≡ true)
unfolding first_collected
first_collected-In zero ps e = absurd (cc)
first_collected-In (suc n) [] e = absurd (cc)
first_collected-In (suc n) (q ∷ ps) {p} e =
    elim (Bool-cases (pickup_status_eq q.status DriverPickupStatus.collected)) [
      | inl this_one ↦ (inl (ground arith), ground arith)
      | inr other ↦
          let (later, delivered) = first_collected-In n ps {p = p} (ground arith) in
          (inr later, delivered)
    ]

collected_pickup-In :
    (claim : ℕ) (rows : List (ℕ × DriverPickup)) {p : DriverPickup}
    → collected_pickup claim rows ≡ some p
    → (id : ℕ) × In (id, p) rows × (is_delivered p ≡ true) × (p.claim_id ≡ claim)
unfolding collected_pickup
collected_pickup-In claim rows {p} e =
    let (here, delivered) = first_collected-In 3 (sorted_pickups claim rows) e in
    let (id, stands, same) = In-sorted_pickups claim p rows here in (id, stands, delivered, same)

heal_claim-nothing : (now id : ℕ) (db : Db) → IsDelivered db → heal_claim now id db ≡ db
unfolding heal_claim
heal_claim-nothing now id db d = elim (Option-cases (find id db.claims)) [
  | inl e ↦ ground arith
  | inr (c, ec) ↦ elim (Option-cases (collected_pickup id db.pickups.rows)) [
    | inl e ↦ ground arith
    | inr (p, ep) ↦
        let (j, here, delivered, same) = collected_pickup-In id db.pickups.rows ep in
        let (c', found, settled) = d (j, p) here delivered in ground arith
  ]
]

heal_claims-nothing :
    (now : ℕ) (ids : List ℕ) (db : Db) → IsDelivered db → heal_claims now ids db ≡ db
unfolding heal_claims
heal_claims-nothing now [] db d = refl
heal_claims-nothing now (id ∷ ids) db d =
    rw (heal_claim-nothing now id db d) (heal_claims-nothing now ids db d)

-- On a database that has only been written by the requests to both services, and that held no
-- delivered pickup of an open claim before, the repair of a page of claims changes nothing.
pub heal_claims-handle_all :
    (now : ℕ) (ids : List ℕ) (rs : List Request) (db : Db)
    → IsDelivered db
    → heal_claims now ids (handle_all rs db) ≡ handle_all rs db
heal_claims-handle_all now ids rs db d =
    heal_claims-nothing now ids (handle_all rs db) (handle_all-IsDelivered rs db d)
