-- ===== src/Drivers/Service/Balance.antt =====
-- Claims, weights and deliveries when both services serve requests.
use svforb.Common.{ℕ, ◌≡◌, List, ◌∷◌, [], ok, arith, >>=-eq-ok}
use svforb.Store.{Db}
use svforb.Claims.Ledger.{IsConserved}
use svforb.Claims.Conservation.{kept-IsConserved}
use svforb.Claims.Repair.{heal_claim, heal_claims}
use svforb.Claims.Service as ClaimService
use svforb.Claims.Service.Weights.{perform-IsConserved}
use svforb.Claims.Service.Statuses.{
  may_become, AllFollow, AllFollow-refl, AllFollow-trans, one_changed, perform-AllFollow,
}
use svforb.Drivers.{accept_pickup, assign_driver_to_pickup}
use svforb.Drivers.Effect.Collecting.{
  Collects, same, collects, heal_claim-Collects, complete_pickup-Collects, accept_pickup-Collects,
  assign_driver_to_pickup-Collects, update_pickup_status-Collects,
  respond_to_pickup_assignment-Collects, decline_available_pickup-Collects,
}
use svforb.Drivers.Service.{
  Request, on_claim, list_mine, accept, move, complete, assign, respond, decline, handle,
  handle_all, handle_all-keeps,
}

Collects-IsConserved : (db db' : Db) → Collects db db' → IsConserved db → IsConserved db'
Collects-IsConserved db db' (same claims listings items) c = record {
  by_listing = λ i l found. rw claims (c.by_listing i l (rw listings at found));
  by_item = λ i it found. rw claims (c.by_item i it (rw items at found));
}
Collects-IsConserved db db'
      (collects id g old found open_claim written listings items status listing org same_items) c =
    kept-IsConserved db id old found db' g listings items written (ground arith) listing same_items
      c

-- What changes no claim but an open one, which it collects, keeps a property of databases, each
-- request to either service does.
module _ (P : Db → Type 0)
    (of_perform : (r : ClaimService.Request) (db db' : Db)
      → P db
      → ClaimService.perform r db ≡ ok db'
      → P db')
    (of_Collects : (db db' : Db) → Collects db db' → P db → P db') where
  heal_claims-keeps : (now : ℕ) (ids : List ℕ) (db : Db) → P db → P (heal_claims now ids db)
  unfolding heal_claims
  heal_claims-keeps now [] db p = p
  heal_claims-keeps now (id ∷ ids) db p =
      heal_claims-keeps now ids (heal_claim now id db)
        (of_Collects db (heal_claim now id db) (heal_claim-Collects now id db) p)

  pub handle-keeps : (r : Request) (db db' : Db) → P db → handle r db ≡ ok db' → P db'
  unfolding handle
  handle-keeps (on_claim r) db db' p h = of_perform r db db' p h
  handle-keeps (list_mine now ids) db db' p h =
      let done : heal_claims now ids db ≡ db' = ground arith in
      rw (← done) (heal_claims-keeps now ids db p)
  handle-keeps (accept live driver_id claim listing) db db' p h =
      let (out, e, done) =
        >>=-eq-ok (accept_pickup live driver_id claim listing db) (λ out. ok out.1) h in
      let done' : out.1 ≡ db' = ground arith in
      rw (← done')
        (of_Collects db out.1 (accept_pickup-Collects live driver_id claim listing db out e) p)
  handle-keeps (move now id driver_id status) db db' p h =
      of_Collects db db' (update_pickup_status-Collects now id driver_id db db' status h) p
  handle-keeps (complete now id driver_id rating) db db' p h =
      of_Collects db db' (complete_pickup-Collects now id driver_id rating db db' h) p
  handle-keeps (assign live org claim listing driver_id) db db' p h =
      let (out, e, done) =
        >>=-eq-ok (assign_driver_to_pickup live org claim listing driver_id db) (λ out. ok out.1)
          h in
      let done' : out.1 ≡ db' = ground arith in
      rw (← done') (
        of_Collects db out.1
          (assign_driver_to_pickup-Collects live org claim listing driver_id db out e) p)
  handle-keeps (respond now id driver_id answer) db db' p h =
      of_Collects db db' (respond_to_pickup_assignment-Collects now id driver_id db db' answer h) p
  handle-keeps (decline now driver_id claim) db db' p h =
      of_Collects db db' (decline_available_pickup-Collects now driver_id claim db db' h) p

-- If the weights are in balance before, then however many requests either service serves, in any
-- order and whether they succeed or throw, the remaining weight of each listing and of each item
-- plus what live claims hold of it is its total weight.
pub handle_all-IsConserved :
    (rs : List Request) (db : Db) → IsConserved db → IsConserved (handle_all rs db)
handle_all-IsConserved = handle_all-keeps IsConserved (
    handle-keeps IsConserved (λ r db db' c h. perform-IsConserved r db db' c h)
      Collects-IsConserved)

Collects-AllFollow : (db db' : Db) → Collects db db' → AllFollow db.claims.rows db'.claims.rows
unfolding may_become
Collects-AllFollow db db' (same claims listings items) = rw claims (AllFollow-refl db.claims.rows)
Collects-AllFollow db db'
      (collects id g old found open_claim written listings items status listing org same_items) =
    one_changed id db db' g found written (record {
      status = ground arith;
      same_listing = listing;
      same_claimant = org;
      same_items = same_items;
    })

-- Every claim of the first database is in the second, and follows from what it was.
abbrev pub FollowsFrom : Db → Db → Type 0
FollowsFrom db0 db = AllFollow db0.claims.rows db.claims.rows

pub handle-FollowsFrom :
    (db0 : Db) (r : Request) (db db' : Db)
    → FollowsFrom db0 db
    → handle r db ≡ ok db'
    → FollowsFrom db0 db'
handle-FollowsFrom db0 =
    handle-keeps (FollowsFrom db0)
      (λ r db db' f h.
        AllFollow-trans db0.claims.rows db.claims.rows db'.claims.rows f
          (perform-AllFollow r db db' h))
      (λ db db' c f.
        AllFollow-trans db0.claims.rows db.claims.rows db'.claims.rows f
          (Collects-AllFollow db db' c))

-- However many requests either service serves, every claim is still there, of the same claimant,
-- listing and items, and its status is one that it may have later: it never returns to an earlier
-- one, and once collected or cancelled it stays so.
pub handle_all-AllFollow :
    (rs : List Request) (db : Db) → AllFollow db.claims.rows (handle_all rs db).claims.rows
handle_all-AllFollow rs db =
    handle_all-keeps (FollowsFrom db) (handle-FollowsFrom db) rs db (AllFollow-refl db.claims.rows)
