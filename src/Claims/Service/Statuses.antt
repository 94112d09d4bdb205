-- ===== src/Claims/Service/Statuses.antt =====
-- The status of a claim under the requests to the claim service.
use svforb.Common.{
  ℕ, ◌≡◌, refl, ◌∙◌, Bool, true, false, Option, none, some, List, [], ◌∷◌, ◌++◌, ◌==◌, ok, arith,
  inl, inr, Option-cases, Result-cases, Bool-cases, >>=-eq-ok,
}
use svforb.Common.Table.{find, lookup, modify, lookup-modify}
use svforb.Prisma.{ClaimStatus, pending, confirmed, claim_status_eq}
use svforb.Store.{Db, FoodClaim, FoodListing}
use svforb.Claims.{Caller, CreateClaimDto, claim_listing, write_claim}
use svforb.Claims.Accepted.{claim_listing-Accepted, Opened-cases}
use svforb.Claims.Lifecycle.{
  confirm_claim, cancel_claim, mark_collected, collect_tx, or_keep, write_cancel, is_open_claim,
}
use svforb.Claims.Feedback.{rate_claim, submit_provider_feedback, rate_driver, latest_delivery}
use svforb.Claims.Service.{
  Request, claim, confirm, cancel, collect, rate, feedback, rate_pickup, perform, serve,
}

-- The statuses that a claim may have later.
unfoldable pub may_become : ClaimStatus → ClaimStatus → Bool
may_become pending s = true
may_become confirmed pending = false
may_become confirmed s = true
may_become ClaimStatus.collected s = claim_status_eq s ClaimStatus.collected
may_become ClaimStatus.cancelled s = claim_status_eq s ClaimStatus.cancelled

may_become_refl : (s : ClaimStatus) → may_become s s ≡ true
unfolding may_become
may_become_refl s = ground arith

may_become_trans :
    (s t u : ClaimStatus) → may_become s t ≡ true → may_become t u ≡ true → may_become s u ≡ true
unfolding may_become
may_become_trans s t u h k = ground arith

-- A claim after a write: of the same parties, listing and items, with a status it may have later.
pub record Follows (c c' : FoodClaim) : Type 0 where
  pub status : may_become c.status c'.status ≡ true
  pub same_listing : c'.listing_id ≡ c.listing_id
  pub same_claimant : c'.claimant_org_id ≡ c.claimant_org_id
  pub same_items : c'.claim_items ≡ c.claim_items

Follows-refl : (c : FoodClaim) → Follows c c
Follows-refl c = record {
  status = may_become_refl c.status;
  same_listing = refl;
  same_claimant = refl;
  same_items = refl;
}

Follows-trans : (c d e : FoodClaim) → Follows c d → Follows d e → Follows c e
Follows-trans c d e f g = record {
  status = may_become_trans c.status d.status e.status f.status g.status;
  same_listing = g.same_listing ∙ f.same_listing;
  same_claimant = g.same_claimant ∙ f.same_claimant;
  same_items = g.same_items ∙ f.same_items;
}

-- Every claim is still there, and follows from what it was.
abbrev pub AllFollow : List (ℕ × FoodClaim) → List (ℕ × FoodClaim) → Type 0
AllFollow rows rows' =
    (j : ℕ) (c : FoodClaim)
    → lookup j rows ≡ some c
    → (c' : FoodClaim) × (lookup j rows' ≡ some c') × Follows c c'

pub AllFollow-refl : (rows : List (ℕ × FoodClaim)) → AllFollow rows rows
AllFollow-refl rows j c e = (c, e, Follows-refl c)

pub AllFollow-trans :
    (rows rows' rows'' : List (ℕ × FoodClaim))
    → AllFollow rows rows'
    → AllFollow rows' rows''
    → AllFollow rows rows''
AllFollow-trans rows rows' rows'' f g j c e =
    let (c', e', step) = f j c e in
    let (c'', e'', steps) = g j c' e' in (c'', e'', Follows-trans c c' c'' step steps)

modify-AllFollow :
    (id : ℕ) (g : FoodClaim → FoodClaim) (rows : List (ℕ × FoodClaim)) {old : FoodClaim}
    → lookup id rows ≡ some old
    → Follows old (g old)
    → AllFollow rows (modify id g rows)
modify-AllFollow id g rows {old} found step j c e = elim (Bool-cases (id == j)) [
  | inl here ↦
      let same : old ≡ c = ground arith in
      (g old, ground (arith, lookup-modify id j g rows), rw (← same) step)
  | inr other ↦ (c, ground (arith, lookup-modify id j g rows), Follows-refl c)
]

append-AllFollow :
    (n : ℕ) (new : FoodClaim) (rows : List (ℕ × FoodClaim)) → AllFollow rows (rows ++ (n, new) ∷ [])
append-AllFollow n new [] j c e = absurd (cc)
append-AllFollow n new (row ∷ rows) j c e = elim (Bool-cases (row.0 == j)) [
  | inl here ↦ (c, ground arith, Follows-refl c)
  | inr other ↦
      let (c', found, step) = append-AllFollow n new rows j c (ground arith) in
      (c', ground arith, step)
]

-- A write that changes one claim, into one that follows from it.
pub one_changed :
    (id : ℕ) (db db' : Db) (g : FoodClaim → FoodClaim) {old : FoodClaim}
    → find id db.claims ≡ some old
    → db'.claims.rows ≡ modify id g db.claims.rows
    → Follows old (g old)
    → AllFollow db.claims.rows db'.claims.rows
one_changed id db db' g found written step =
    rw written (modify-AllFollow id g db.claims.rows found step)

module _ (caller : Caller) (id : ℕ) (db db' : Db) where
  confirm_claim-AllFollow :
      (now : ℕ) → confirm_claim now caller id db ≡ ok db' → AllFollow db.claims.rows db'.claims.rows
  unfolding confirm_claim may_become
  confirm_claim-AllFollow now h = elim (Opened-cases caller id db) [
    | inl missing ↦ absurd (ground arith)
    | inr o ↦
        one_changed id db db' (λ r. record r { status = confirmed; confirmed_at = some now })
          o.found (ground arith)
          (record {
            status = ground arith;
            same_listing = refl;
            same_claimant = refl;
            same_items = refl;
          })
  ]

  cancel_claim-AllFollow :
      cancel_claim caller id db ≡ ok db' → AllFollow db.claims.rows db'.claims.rows
  unfolding cancel_claim may_become write_cancel
  cancel_claim-AllFollow h = elim (Opened-cases caller id db) [
    | inl missing ↦ absurd (ground arith)
    | inr o ↦
        one_changed id db db' (λ r. record r { status = ClaimStatus.cancelled }) o.found
          (ground arith)
          (record {
            status = ground arith;
            same_listing = refl;
            same_claimant = refl;
            same_items = refl;
          })
  ]

  rate_claim-AllFollow :
      (stars : ℕ)
      → rate_claim caller id stars db ≡ ok db'
      → AllFollow db.claims.rows db'.claims.rows
  unfolding rate_claim
  rate_claim-AllFollow stars h = elim (Opened-cases caller id db) [
    | inl missing ↦ absurd (ground arith)
    | inr o ↦
        one_changed id db db' (λ r. record r { rating = some stars }) o.found (ground arith)
          (record {
            status = may_become_refl o.claim.status;
            same_listing = refl;
            same_claimant = refl;
            same_items = refl;
          })
  ]

  feedback-AllFollow :
      (now : ℕ) (did_collect : Bool) (stars : Option ℕ)
      → submit_provider_feedback now caller id did_collect stars db ≡ ok db'
      → AllFollow db.claims.rows db'.claims.rows
  unfolding submit_provider_feedback
  feedback-AllFollow now did_collect stars h = elim (Opened-cases caller id db) [
    | inl missing ↦ absurd (ground arith)
    | inr o ↦
        one_changed id db db'
          (λ r. record r {
            provider_confirmed_at = some now;
            provider_did_collect = some did_collect;
            provider_rating = stars;
          })
          o.found (ground arith)
          (record {
            status = may_become_refl o.claim.status;
            same_listing = refl;
            same_claimant = refl;
            same_items = refl;
          })
  ]

  rate_driver-AllFollow :
      (stars : ℕ)
      → rate_driver caller id stars db ≡ ok db'
      → AllFollow db.claims.rows db'.claims.rows
  unfolding rate_driver
  rate_driver-AllFollow stars h = elim (Opened-cases caller id db) [
    | inl missing ↦ absurd (ground arith)
    | inr o ↦ elim (Option-cases (latest_delivery id db.pickups.rows none)) [
      | inl e ↦ absurd (ground arith)
      | inr (pickup, e) ↦
          let same : db'.claims.rows ≡ db.claims.rows = ground arith in
          λ j c found. (c, rw same found, Follows-refl c)
    ]
  ]

claim_listing-AllFollow :
    (now : ℕ) (caller : Caller) (dto : CreateClaimDto) (db : Db) (out : ℕ × Db)
    → claim_listing now caller dto db ≡ ok out
    → AllFollow db.claims.rows out.1.claims.rows
unfolding write_claim
claim_listing-AllFollow now caller dto db out h =
    let a = claim_listing-Accepted now caller dto db out h in
    let written = a.written in rw (← a.written) (append-AllFollow db.claims.next _ db.claims.rows)

collect_tx-AllFollow :
    (now org id : ℕ) (stars : Option ℕ) (old : FoodClaim) (l : FoodListing) (db : Db)
    → find id db.claims ≡ some old
    → AllFollow db.claims.rows (collect_tx now org id stars old l db).1.claims.rows
unfolding collect_tx may_become
collect_tx-AllFollow now org id stars old l db found =
    elim (Bool-cases (is_open_claim old.status)) [
      | inl open_claim ↦
          one_changed id db (collect_tx now org id stars old l db).1
            (λ r. record r {
              status = ClaimStatus.collected;
              collected_at = some now;
              rating = or_keep stars r.rating;
            })
            found (ground arith)
            (record {
              status = ground arith;
              same_listing = refl;
              same_claimant = refl;
              same_items = refl;
            })
      | inr closed ↦
          let same : (collect_tx now org id stars old l db).1 ≡ db = ground arith in
          rw same (λ j c e. (c, e, Follows-refl c))
    ]

mark_collected-AllFollow :
    (now : ℕ) (caller : Caller) (id : ℕ) (stars : Option ℕ) (db : Db) (out : Bool × Db)
    → mark_collected now caller id stars db ≡ ok out
    → AllFollow db.claims.rows out.1.claims.rows
unfolding mark_collected
mark_collected-AllFollow now caller id stars db out h = elim (Opened-cases caller id db) [
  | inl missing ↦ absurd (ground arith)
  | inr o ↦ elim (Bool-cases (claim_status_eq o.claim.status ClaimStatus.collected)) [
    | inl already ↦
        let same : out.1 ≡ db = ground arith in rw same (λ j c e. (c, e, Follows-refl c))
    | inr fresh ↦
        let same : collect_tx now o.org id stars o.claim o.l db ≡ out = ground arith in
        rw (← same) (collect_tx-AllFollow now o.org id stars o.claim o.l db o.found)
  ]
]

pub perform-AllFollow :
    (r : Request) (db db' : Db) → perform r db ≡ ok db' → AllFollow db.claims.rows db'.claims.rows
unfolding perform
perform-AllFollow (claim now caller dto) db db' h =
    let (out, e, same) = >>=-eq-ok (claim_listing now caller dto db) (λ out. ok out.1) h in
    let same' : out.1 ≡ db' = ground arith in
    rw (← same') (claim_listing-AllFollow now caller dto db out e)
perform-AllFollow (confirm now caller id) db db' h = confirm_claim-AllFollow caller id db db' now h
perform-AllFollow (cancel caller id) db db' h = cancel_claim-AllFollow caller id db db' h
perform-AllFollow (collect now caller id stars) db db' h =
    let (out, e, same) = >>=-eq-ok (mark_collected now caller id stars db) (λ out. ok out.1) h in
    let same' : out.1 ≡ db' = ground arith in
    rw (← same') (mark_collected-AllFollow now caller id stars db out e)
perform-AllFollow (rate caller id stars) db db' h = rate_claim-AllFollow caller id db db' stars h
perform-AllFollow (feedback now caller id did_collect stars) db db' h =
    feedback-AllFollow caller id db db' now did_collect stars h
perform-AllFollow (rate_pickup caller id stars) db db' h =
    rate_driver-AllFollow caller id db db' stars h

-- However many requests are served, every claim is still there, of the same claimant, listing and
-- items, and its status is one that it may have later: it never returns to an earlier one, and
-- once collected or cancelled it stays so.
pub serve-AllFollow :
    (rs : List Request) (db : Db) → AllFollow db.claims.rows (serve rs db).claims.rows
unfolding serve
serve-AllFollow [] db = λ j c e. (c, e, Follows-refl c)
serve-AllFollow (r ∷ rs) db = elim (Result-cases (perform r db)) [
  | inl (x, e) ↦ rw (serve, e) (serve-AllFollow rs db)
  | inr (db', e) ↦
      rw (serve, e)
        (λ j c found.
          let (d, found_d, step) = perform-AllFollow r db db' e j c found in
          let (d', found_d', steps) = serve-AllFollow rs db' j d found_d in
          (d', found_d', Follows-trans c d d' step steps))
]
