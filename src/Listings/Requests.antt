-- ===== src/Listings/Requests.antt =====
-- The requests to the listing service and the jobs of its worker.
use svforb.Common.{
  ℕ, refl, List, [], ◌∷◌, Bool-cases, Option-cases, inl, inr, ok, err, Result-cases,
}
use svforb.Common.Table.{find}
use svforb.Store.{Db}
use svforb.Claims.{Caller}
use svforb.Listings.{
  CreateFoodListingDto, create_listing, cancel_listing, expire_listing_if_due,
  handle_sweep_expired_listings, write_expiry, expire_each, overdue_ids, is_overdue,
}
use svforb.Listings.Expiry.{expired, expire_listing_if_due-eq-is_overdue}
use svforb.Listings.Balance.{IsSound, write_listing-IsSound, restated-IsSound}
use svforb.Listings.Writes.{withdrawn, create_listing-writes, cancel_listing-writes}

-- A request to the listing service or a job of its worker.
pub data Request : Type 0 where
  create_a_listing : Caller → CreateFoodListingDto → Request
  cancel_a_listing : Caller → ℕ → Request
  -- with the time of the job
  expire_a_listing : ℕ → ℕ → Request
  sweep_listings : ℕ → Request

-- The database after a request; one that throws leaves it as it was.
pub handle : Request → Db → Db
handle (create_a_listing caller dto) db = elim (create_listing caller dto db) [
  | ok out ↦ out.1
  | err e ↦ db
]
handle (cancel_a_listing caller id) db = elim (cancel_listing caller id db) [
  | ok out ↦ out
  | err e ↦ db
]
handle (expire_a_listing now id) db = (expire_listing_if_due now id db).1
handle (sweep_listings now) db = handle_sweep_expired_listings now db

pub handle_all : List Request → Db → Db
handle_all [] db = db
handle_all (r ∷ rs) db = handle_all rs (handle r db)

module _ (db : Db) (s : IsSound db) where
  expire_listing_if_due-IsSound : (now id : ℕ) → IsSound (expire_listing_if_due now id db).1
  unfolding write_expiry expire_listing_if_due
  expire_listing_if_due-IsSound now id = elim (Option-cases (find id db.listings)) [
    | inl missing ↦ rw (missing, expire_listing_if_due) s
    | inr (l, found) ↦
        rw (expire_listing_if_due-eq-is_overdue now id db found)
          (elim (Bool-cases (is_overdue now l)) [
            | inl due ↦ rw due (
                restated-IsSound db (write_expiry now id l db) id expired refl refl refl (λ l. refl)
                  (λ l. refl) s)
            | inr early ↦ rw early s
          ])
  ]

expire_each-IsSound :
    (now : ℕ) (ids : List ℕ) (db : Db) → IsSound db → IsSound (expire_each now ids db)
unfolding expire_each
expire_each-IsSound now [] db s = s
expire_each-IsSound now (id ∷ ids) db s =
    expire_each-IsSound now ids (expire_listing_if_due now id db).1
      (expire_listing_if_due-IsSound db s now id)

handle-IsSound : (r : Request) (db : Db) → IsSound db → IsSound (handle r db)
unfolding handle handle_sweep_expired_listings
handle-IsSound (create_a_listing caller dto) db s =
    elim (Result-cases (create_listing caller dto db)) [
      | inl (e, thrown) ↦ rw (thrown, handle) s
      | inr (out, done) ↦
          let (org, site_org, same) = create_listing-writes caller dto db done in
          rw (done, handle, ← same) (write_listing-IsSound org site_org dto db s)
    ]
handle-IsSound (cancel_a_listing caller id) db s =
    elim (Result-cases (cancel_listing caller id db)) [
      | inl (e, thrown) ↦ rw (thrown, handle) s
      | inr (out, done) ↦
          rw (done, handle, ← cancel_listing-writes caller id db done)
            (restated-IsSound db _ id withdrawn refl refl refl (λ l. refl) (λ l. refl) s)
    ]
handle-IsSound (expire_a_listing now id) db s = expire_listing_if_due-IsSound db s now id
handle-IsSound (sweep_listings now) db s =
    expire_each-IsSound now (overdue_ids now 200 db.listings.rows) db s

-- Let each listing and each food item have left what its live claims do not hold, and let claims
-- name listings and items that have been created. This is still so after any sequence of requests
-- and jobs on listings: creation, cancellation, expiry and the sweep.
pub handle_all-IsSound : (rs : List Request) (db : Db) → IsSound db → IsSound (handle_all rs db)
unfolding handle_all
handle_all-IsSound [] db s = s
handle_all-IsSound (r ∷ rs) db s = handle_all-IsSound rs (handle r db) (handle-IsSound r db s)
