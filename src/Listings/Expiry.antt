-- ===== src/Listings/Expiry.antt =====
-- The sweep of the listing worker: which listings it expires.
use svforb.Common.{
  ℕ, suc, zero, ◌≡◌, ◌≤◌, refl, Bool, true, false, Option, none, some, List, [], ◌∷◌, ◌==◌, ◌+◌,
  ◌||◌, ◌&&◌, arith, if◌then◌else◌, Bool-cases, Option-cases, inl, inr, not, ap, ◌∙◌, ltb, leb,
}
use svforb.Common.Table.{find, lookup, lookup-modify}
use svforb.Prisma.{ListingStatus}
use svforb.Store.{FoodListing, Db}
use svforb.Claims.{is_past, is_open_status}
use svforb.Listings.{
  resolve_listing_expiry_at, write_expiry, expire_listing_if_due, is_overdue, overdue_ids,
  expire_each, handle_sweep_expired_listings, is_reserved,
}

abbrev pub expired : FoodListing → FoodListing
expired l = record l { status = ListingStatus.expired }

abbrev pub swept : Bool → ℕ → FoodListing → FoodListing
swept chosen now l = if chosen && is_overdue now l then expired l else l

-- The earlier of the two times has passed when one of them has.
passed_by_either :
    (now best : ℕ) (by : Option ℕ)
    → ltb now (resolve_listing_expiry_at now by (some best)) ≡ not (is_past by now || leb best now)
unfolding resolve_listing_expiry_at
passed_by_either now best none = ground arith
passed_by_either now best (some by) = ground arith

-- The worker's test of one listing is the sweep's filter.
pub expire_listing_if_due-eq-is_overdue :
    (now id : ℕ) (db : Db) {l : FoodListing}
    → find id db.listings ≡ some l
    → expire_listing_if_due now id db
      ≡ (if is_overdue now l then (true, write_expiry now id l db) else (false, db))
unfolding expire_listing_if_due
expire_listing_if_due-eq-is_overdue now id db {l} found =
    rw (found, expire_listing_if_due)
      (let times = passed_by_either now l.best_before l.pickup_by_time in ground arith)

-- What the worker leaves of a listing, whichever listing it looks at.
find-expire_listing_if_due :
    (now id j : ℕ) (db : Db) {l : FoodListing}
    → find j db.listings ≡ some l
    → find j (expire_listing_if_due now id db).1.listings ≡ some (swept (id == j) now l)
unfolding expire_listing_if_due write_expiry
find-expire_listing_if_due now id j db {l} found = elim (Option-cases (find id db.listings)) [
  | inl missing ↦ rw (missing, expire_listing_if_due) (ground arith)
  | inr (m, present) ↦
      let moved = lookup-modify id j expired db.listings.rows in
      rw (expire_listing_if_due-eq-is_overdue now id db present) (ground arith)
]

abbrev mem : ℕ → List ℕ → Bool
mem j [] = false
mem j (id ∷ ids) = id == j || mem j ids

swept-swept :
    (a b : Bool) (now : ℕ) (l : FoodListing) → swept b now (swept a now l) ≡ swept (a || b) now l
swept-swept a b now l = ground arith

find-expire_each :
    (now j : ℕ) (ids : List ℕ) (db : Db) {l : FoodListing}
    → find j db.listings ≡ some l
    → find j (expire_each now ids db).listings ≡ some (swept (mem j ids) now l)
unfolding expire_each
find-expire_each now j [] db found = found
find-expire_each now j (id ∷ ids) db {l} found = rw (← swept-swept (id == j) (mem j ids) now l) (
    find-expire_each now j ids (expire_listing_if_due now id db).1
      (find-expire_listing_if_due now id j db found))

-- How many rows the sweep's filter lets through.
unfoldable pub count_overdue : ℕ → List (ℕ × FoodListing) → ℕ
count_overdue now [] = 0
count_overdue now ((id, l) ∷ rows) = (if is_overdue now l then 1 else 0) + count_overdue now rows

mem-overdue_ids :
    (now n j : ℕ) (rows : List (ℕ × FoodListing)) {l : FoodListing}
    → lookup j rows ≡ some l
    → is_overdue now l ≡ true
    → count_overdue now rows ≤ n
    → mem j (overdue_ids now n rows) ≡ true
unfolding overdue_ids count_overdue
mem-overdue_ids now n j [] found due few = absurd (cc)
mem-overdue_ids now zero j ((id, m) ∷ rows) {l} found due few =
    ground (arith, mem-overdue_ids now zero j rows {l = l})
mem-overdue_ids now (suc n) j ((id, m) ∷ rows) {l} found due few =
    ground (arith, mem-overdue_ids now n j rows {l = l}, mem-overdue_ids now (suc n) j rows {l = l})

-- The listing is open, nobody has it reserved, and the earlier of its two times has come.
abbrev pub is_due : ℕ → FoodListing → Bool
is_due now l =
    is_open_status l.status
    && not (is_reserved l)
    && leb (resolve_listing_expiry_at now l.pickup_by_time (some l.best_before)) now

is_overdue-eq-is_due : (now : ℕ) (l : FoodListing) → is_overdue now l ≡ is_due now l
unfolding resolve_listing_expiry_at
is_overdue-eq-is_due now l = ground arith

-- While at most 200 rows pass the sweep's filter, a sweep expires every listing that is due: open,
-- not reserved, and with the end of its pickup window or its best-before time reached. It leaves
-- the other listings as they are.
pub sweep-expires :
    (now : ℕ) (db : Db)
    → count_overdue now db.listings.rows ≤ 200
    → (id : ℕ) {l : FoodListing} → find id db.listings ≡ some l
    → find id (handle_sweep_expired_listings now db).listings
      ≡ some (if is_due now l then expired l else l)
unfolding handle_sweep_expired_listings
sweep-expires now db few id {l} found =
    let chosen = mem-overdue_ids now 200 id db.listings.rows {l = l} found in
    let result = find-expire_each now id (overdue_ids now 200 db.listings.rows) db found in
    rw (← is_overdue-eq-is_due now l) (
      result
      ∙ ap some (elim (Bool-cases (is_overdue now l)) [
        | inl due ↦ rw (due, chosen due few) refl
        | inr early ↦ rw early (ground arith)
      ]))
