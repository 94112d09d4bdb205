-- ===== src/Claims/Collecting.antt =====
-- `markCollected`: what its transaction does, also when two calls have read the same claim.
use svforb.Common.{
  ℕ, ◌≡◌, refl, ◌⊎◌, true, false, Option, some, arith, inl, inr, Bool-cases, Option-cases,
}
use svforb.Common.Table.{find, lookup-modify_self}
use svforb.Prisma.{ClaimStatus}
use svforb.Store.{FoodListing, FoodClaim, Db}
use svforb.Claims.Lifecycle.{collect_tx, or_keep, is_open_claim, rate_org}

abbrev collected : ℕ → Option ℕ → FoodClaim → FoodClaim
collected now stars r = record r {
  status = ClaimStatus.collected;
  collected_at = some now;
  rating = or_keep stars r.rating;
}

-- Of two calls that collect one claim at the same time, whatever each has read before its
-- transaction, the second finds it collected and changes nothing: one collection, one rating.
pub collect_tx-once :
    (now now' org org' id : ℕ) (stars stars' : Option ℕ) (c c' : FoodClaim) (l l' : FoodListing)
    (db : Db)
    → (collect_tx now org id stars c l db).0 ≡ true
    → collect_tx now' org' id stars' c' l' (collect_tx now org id stars c l db).1
      ≡ (false, (collect_tx now org id stars c l db).1)
unfolding collect_tx
collect_tx-once now now' org org' id stars stars' c c' l l' db h =
    elim (Option-cases (find id db.claims)) [
      | inl missing ↦ absurd (ground arith)
      | inr (r, found) ↦
          ground (arith, lookup-modify_self id (collected now stars) db.claims.rows found)
    ]

-- The transaction collects exactly the claims that are pending or confirmed when it runs; it
-- then stands as collected at that time, and otherwise nothing changes.
pub collect_tx_iff :
    (now org id : ℕ) (stars : Option ℕ) (c : FoodClaim) (l : FoodListing) (db : Db)
    {old : FoodClaim}
    → find id db.claims ≡ some old
    → ((is_open_claim old.status ≡ false) × (collect_tx now org id stars c l db ≡ (false, db)))
      ⊎ ((is_open_claim old.status ≡ true)
          × ((collect_tx now org id stars c l db).0 ≡ true)
          × ((r : FoodClaim) × (find id (collect_tx now org id stars c l db).1.claims ≡ some r)
              × (r.status ≡ ClaimStatus.collected)
              × (r.collected_at ≡ some now)
              × (r.claim_items ≡ old.claim_items))
          × ((collect_tx now org id stars c l db).1.organisations
              ≡ rate_org l.organisation_id stars db.organisations))
unfolding collect_tx
collect_tx_iff now org id stars c l db {old} found = elim (Bool-cases (is_open_claim old.status)) [
  | inl open_claim ↦ inr (
    open_claim,
    ground arith,
    (
      collected now stars old,
      ground (arith, lookup-modify_self id (collected now stars) db.claims.rows found),
      refl,
      refl,
      refl,
    ),
    ground arith,
  )
  | inr closed ↦ inl (closed, ground arith)
]
