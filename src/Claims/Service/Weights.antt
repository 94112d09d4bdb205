-- ===== src/Claims/Service/Weights.antt =====
-- Every request keeps the weights of listings, items and claims in balance.
use svforb.Common.{
  ℕ, ◌≡◌, refl, Bool, Option, none, some, List, [], ◌∷◌, ok, arith, inl, inr, Option-cases,
  Result-cases, Bool-cases, >>=-eq-ok,
}
use svforb.Common.Table.{find}
use svforb.Prisma.{ClaimStatus, confirmed, claim_status_eq}
use svforb.Store.{Db, FoodClaim, FoodListing}
use svforb.Claims.{Caller, CreateClaimDto, claim_listing}
use svforb.Claims.Accepted.{claim_listing-Accepted, Opened-cases}
use svforb.Claims.Lifecycle.{
  confirm_claim, cancel_claim, mark_collected, collect_tx, or_keep, write_cancel, is_open_claim,
}
use svforb.Claims.Feedback.{rate_claim, submit_provider_feedback, rate_driver, latest_delivery}
use svforb.Claims.Ledger.{IsConserved}
use svforb.Claims.Conservation.{write_claim-IsConserved, kept-IsConserved, write_cancel-IsConserved}
use svforb.Claims.Service.{
  Request, claim, confirm, cancel, collect, rate, feedback, rate_pickup, perform, serve,
}

claim_listing-IsConserved :
    (now : ℕ) (caller : Caller) (dto : CreateClaimDto) (db : Db) (out : ℕ × Db)
    → IsConserved db
    → claim_listing now caller dto db ≡ ok out
    → IsConserved out.1
claim_listing-IsConserved now caller dto db out c h =
    let a = claim_listing-Accepted now caller dto db out h in
    rw (← a.written) (write_claim-IsConserved a.org caller.site_id dto a.l a.items db a.found c)

module _ (caller : Caller) (id : ℕ) (db db' : Db) (c : IsConserved db) where
  confirm_claim-IsConserved : (now : ℕ) → confirm_claim now caller id db ≡ ok db' → IsConserved db'
  unfolding confirm_claim
  confirm_claim-IsConserved now h = elim (Opened-cases caller id db) [
    | inl missing ↦ absurd (ground arith)
    | inr o ↦
        kept-IsConserved db id o.claim o.found db'
          (λ r. record r { status = confirmed; confirmed_at = some now }) (ground arith)
          (ground arith) (ground arith) (ground arith) refl refl c
  ]

  cancel_claim-IsConserved : cancel_claim caller id db ≡ ok db' → IsConserved db'
  unfolding cancel_claim
  cancel_claim-IsConserved h = elim (Opened-cases caller id db) [
    | inl missing ↦ absurd (ground arith)
    | inr o ↦
        let written : write_cancel o.org id o.claim db ≡ db' = ground arith in
        rw (← written) (write_cancel-IsConserved db id o.claim o.found o.org (ground arith) c)
  ]

  rate_claim-IsConserved : (stars : ℕ) → rate_claim caller id stars db ≡ ok db' → IsConserved db'
  unfolding rate_claim
  rate_claim-IsConserved stars h = elim (Opened-cases caller id db) [
    | inl missing ↦ absurd (ground arith)
    | inr o ↦
        kept-IsConserved db id o.claim o.found db' (λ r. record r { rating = some stars })
          (ground arith) (ground arith) (ground arith) refl refl refl c
  ]

  feedback-IsConserved :
      (now : ℕ) (did_collect : Bool) (stars : Option ℕ)
      → submit_provider_feedback now caller id did_collect stars db ≡ ok db'
      → IsConserved db'
  unfolding submit_provider_feedback
  feedback-IsConserved now did_collect stars h = elim (Opened-cases caller id db) [
    | inl missing ↦ absurd (ground arith)
    | inr o ↦
        kept-IsConserved db id o.claim o.found db'
          (λ r. record r {
            provider_confirmed_at = some now;
            provider_did_collect = some did_collect;
            provider_rating = stars;
          })
          (ground arith) (ground arith) (ground arith) refl refl refl c
  ]

  rate_driver-IsConserved : (stars : ℕ) → rate_driver caller id stars db ≡ ok db' → IsConserved db'
  unfolding rate_driver
  rate_driver-IsConserved stars h = elim (Opened-cases caller id db) [
    | inl missing ↦ absurd (ground arith)
    | inr o ↦ elim (Option-cases (latest_delivery id db.pickups.rows none)) [
      | inl e ↦ absurd (ground arith)
      | inr (pickup, e) ↦
          let listings : db'.listings ≡ db.listings = ground arith in
          let items : db'.food_items ≡ db.food_items = ground arith in
          let claims : db'.claims ≡ db.claims = ground arith in
          record {
            by_listing = λ i l found. rw claims (c.by_listing i l (rw listings at found));
            by_item = λ i it found. rw claims (c.by_item i it (rw items at found));
          }
    ]
  ]

collect_tx-IsConserved :
    (now org id : ℕ) (stars : Option ℕ) (old : FoodClaim) (l : FoodListing) (db : Db)
    → find id db.claims ≡ some old
    → IsConserved db
    → IsConserved (collect_tx now org id stars old l db).1
unfolding collect_tx
collect_tx-IsConserved now org id stars old l db found c =
    elim (Bool-cases (is_open_claim old.status)) [
      | inl open_claim ↦
          kept-IsConserved db id old found (collect_tx now org id stars old l db).1
            (λ r. record r {
              status = ClaimStatus.collected;
              collected_at = some now;
              rating = or_keep stars r.rating;
            })
            (ground arith) (ground arith) (ground arith) (ground arith) refl refl c
      | inr closed ↦
          let same : (collect_tx now org id stars old l db).1 ≡ db = ground arith in rw same c
    ]

mark_collected-IsConserved :
    (now : ℕ) (caller : Caller) (id : ℕ) (stars : Option ℕ) (db : Db) (out : Bool × Db)
    → IsConserved db
    → mark_collected now caller id stars db ≡ ok out
    → IsConserved out.1
unfolding mark_collected
mark_collected-IsConserved now caller id stars db out c h = elim (Opened-cases caller id db) [
  | inl missing ↦ absurd (ground arith)
  | inr o ↦ elim (Bool-cases (claim_status_eq o.claim.status ClaimStatus.collected)) [
    | inl already ↦ let same : out.1 ≡ db = ground arith in rw same c
    | inr fresh ↦
        let same : collect_tx now o.org id stars o.claim o.l db ≡ out = ground arith in
        rw (← same) (collect_tx-IsConserved now o.org id stars o.claim o.l db o.found c)
  ]
]

-- Whatever request is served, if the weights were in balance before it, they are after it.
pub perform-IsConserved :
    (r : Request) (db db' : Db) → IsConserved db → perform r db ≡ ok db' → IsConserved db'
unfolding perform
perform-IsConserved (claim now caller dto) db db' c h =
    let (out, e, same) = >>=-eq-ok (claim_listing now caller dto db) (λ out. ok out.1) h in
    let same' : out.1 ≡ db' = ground arith in
    rw (← same') (claim_listing-IsConserved now caller dto db out c e)
perform-IsConserved (confirm now caller id) db db' c h =
    confirm_claim-IsConserved caller id db db' c now h
perform-IsConserved (cancel caller id) db db' c h = cancel_claim-IsConserved caller id db db' c h
perform-IsConserved (collect now caller id stars) db db' c h =
    let (out, e, same) = >>=-eq-ok (mark_collected now caller id stars db) (λ out. ok out.1) h in
    let same' : out.1 ≡ db' = ground arith in
    rw (← same') (mark_collected-IsConserved now caller id stars db out c e)
perform-IsConserved (rate caller id stars) db db' c h =
    rate_claim-IsConserved caller id db db' c stars h
perform-IsConserved (feedback now caller id did_collect stars) db db' c h =
    feedback-IsConserved caller id db db' c now did_collect stars h
perform-IsConserved (rate_pickup caller id stars) db db' c h =
    rate_driver-IsConserved caller id db db' c stars h

-- If the weights are in balance before, then however many requests are served, in any order and
-- whether they succeed or throw, the remaining weight of each listing and of each item plus what
-- live claims hold of it is its total weight.
pub serve-IsConserved : (rs : List Request) (db : Db) → IsConserved db → IsConserved (serve rs db)
unfolding serve
serve-IsConserved [] db c = c
serve-IsConserved (r ∷ rs) db c = elim (Result-cases (perform r db)) [
  | inl (x, e) ↦ rw e (serve-IsConserved rs db c)
  | inr (db', e) ↦ rw e (serve-IsConserved rs db' (perform-IsConserved r db db' c e))
]
