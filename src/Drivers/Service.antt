-- ===== src/Drivers/Service.antt =====
-- The claim service and the driver service on their shared database.
pub mod Exclusive
pub mod Trips
pub mod Balance
pub mod Delivered
use svforb.Common.{
  ℕ, ◌≡◌, Bool, Option, List, [], ◌∷◌, inl, inr, Result, ok, err, Result-cases, ◌>>=◌, ◌>>◌,
}
use svforb.Prisma.{DriverPickupStatus}
use svforb.Store.{Db}
use svforb.Claims.Repair.{heal_claims}
use svforb.Claims.Service as ClaimService
use svforb.Drivers.{
  LiveDrivers, accept_pickup, update_pickup_status, complete_pickup, assign_driver_to_pickup,
  respond_to_pickup_assignment, decline_available_pickup,
}

-- A request to one of the two services, with the time at which it is served and, where it is
-- read, what Redis holds of the drivers who are live.
pub data Request : Type 0 where
  on_claim : ClaimService.Request → Request
  list_mine : ℕ → List ℕ → Request
  accept : LiveDrivers → ℕ → ℕ → ℕ → Request
  move : ℕ → ℕ → ℕ → DriverPickupStatus → Request
  complete : ℕ → ℕ → ℕ → Option ℕ → Request
  assign : LiveDrivers → ℕ → ℕ → ℕ → ℕ → Request
  respond : ℕ → ℕ → ℕ → Bool → Request
  decline : ℕ → ℕ → ℕ → Request

-- The database after a request.
unfoldable pub handle : Request → Db → Result Db
handle (on_claim r) db = ClaimService.perform r db
handle (list_mine now ids) db = ok (heal_claims now ids db)
handle (accept live driver_id claim listing) db = do
  out ← accept_pickup live driver_id claim listing db
  ok out.1
handle (move now id driver_id status) db = update_pickup_status now id driver_id status db
handle (complete now id driver_id rating) db = complete_pickup now id driver_id rating db
handle (assign live org claim listing driver_id) db = do
  out ← assign_driver_to_pickup live org claim listing driver_id db
  ok out.1
handle (respond now id driver_id yes_or_no) db =
    respond_to_pickup_assignment now id driver_id yes_or_no db
handle (decline now driver_id claim) db = decline_available_pickup now driver_id claim db

abbrev or_unchanged : Result Db → Db → Db
or_unchanged (ok db') db = db'
or_unchanged (err e) db = db

-- A sequence of requests; one that throws changes nothing.
unfoldable pub handle_all : List Request → Db → Db
handle_all [] db = db
handle_all (r ∷ rs) db = handle_all rs (or_unchanged (handle r db) db)

module _ {κ} (P : Db → Type κ) where
  -- What every request keeps, every sequence of requests keeps.
  pub handle_all-keeps :
      ((r : Request) (db db' : Db) → P db → handle r db ≡ ok db' → P db')
      → (rs : List Request) (db : Db) → P db
      → P (handle_all rs db)
  unfolding handle_all
  handle_all-keeps step [] db p = p
  handle_all-keeps step (r ∷ rs) db p = elim (Result-cases (handle r db)) [
    | inl (x, e) ↦ rw e (handle_all-keeps step rs db p)
    | inr (db', e) ↦ rw e (handle_all-keeps step rs db' (step r db db' p e))
  ]
