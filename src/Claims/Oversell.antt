-- ===== src/Claims/Oversell.antt =====
-- `claimListing` on a partial claim: how much the entries of one request take together.
use svforb.Common.{
  ℕ, ◌≡◌, refl, sym, ap, ◌∙◌, false, some, List, [], ◌∷◌, ◌++◌, ◌==◌, ok, arith, inl, inr,
  Bool-cases, Option-cases, ==_iff, includes, map,
}
use svforb.Common.Int.{pos, ◌+ℤ◌, ◌-ℤ◌, ◌≤ℤ◌, ◌<ℤ◌, int_laws}
use svforb.Common.Table.{find}
use svforb.Prisma.{ClaimMode}
use svforb.Store.{FoodItem, ClaimItem, Db}
use svforb.Claims.{
  Caller, CreateClaimDto, check_items, claim_items_data, write_claim, claim_listing, listing_item,
}
use svforb.Claims.Accepted.{claim_listing-Accepted}
use svforb.Claims.Ledger.{qty_of, take_items_lem}

module _ (now : ℕ) (caller : Caller) (dto : CreateClaimDto) (db : Db) (out : ℕ × Db)
    (is_partial : dto.claim_mode ≡ ClaimMode.partial)
    (accepted : claim_listing now caller dto db ≡ ok out) where
  checked :
      (items : List ClaimItem)
      → claim_items_data db dto dto.claim_mode ≡ ok items
      → (items ≡ dto.claim_items) × (check_items db dto.listing_id dto.claim_items ≡ ok tt)
  unfolding claim_items_data
  checked items e = let e' = rw is_partial at e in ground arith

  -- A partial claim takes from an item what the entries for it add up to.
  partial_claim_takes :
      (i : ℕ) (it : FoodItem)
      → find i db.food_items ≡ some it
      → find i out.1.food_items
        ≡ some (record it { remaining_qty = it.remaining_qty -ℤ qty_of i dto.claim_items })
  unfolding write_claim
  partial_claim_takes i it found =
      let a = claim_listing-Accepted now caller dto db out accepted in
      let items = (checked a.items a.chosen).0 in
      let written = a.written in cc (take_items_lem i a.items db.food_items found)

-- The entries of a request name an item at most once.
abbrev pub NamesOnce : List ClaimItem → Type 0
NamesOnce [] = Unit {0}
NamesOnce (ci ∷ cis) =
    (includes (map (λ x. x.food_item_id) cis) ci.food_item_id ≡ false) × NamesOnce cis

qty_of_other :
    (i : ℕ) (cis : List ClaimItem)
    → includes (map (λ x. x.food_item_id) cis) i ≡ false
    → qty_of i cis ≡ pos 0
unfolding qty_of
qty_of_other i [] h = refl
qty_of_other i (ci ∷ cis) h =
    let ih = qty_of_other i cis (ground arith) in
    let not_here : ci.food_item_id == i ≡ false = ground arith in rw (ih, not_here) (omega int_laws)

-- An entry that passed the check is within what is left of its item.
check_items-head :
    (db : Db) (listing : ℕ) (ci : ClaimItem) (cis : List ClaimItem) {it : FoodItem}
    → find ci.food_item_id db.food_items ≡ some it
    → check_items db listing (ci ∷ cis) ≡ ok tt
    → (ci.qty ≤ℤ it.remaining_qty) × (check_items db listing cis ≡ ok tt)
unfolding check_items
check_items-head db listing ci cis {it} found h = ground arith

check_items-tail :
    (db : Db) (listing : ℕ) (ci : ClaimItem) (cis : List ClaimItem)
    → check_items db listing (ci ∷ cis) ≡ ok tt
    → check_items db listing cis ≡ ok tt
unfolding check_items
check_items-tail db listing ci cis h =
    elim (Option-cases (listing_item db listing ci.food_item_id)) [
      | inl e ↦ absurd (ground arith)
      | inr (item, e) ↦ ground arith
    ]

-- Entries that each passed the check, and name an item once, fit in what is left of it.
qty_of-fits :
    (db : Db) (listing i : ℕ) (cis : List ClaimItem) {it : FoodItem}
    → find i db.food_items ≡ some it
    → pos 0 ≤ℤ it.remaining_qty
    → NamesOnce cis
    → check_items db listing cis ≡ ok tt
    → qty_of i cis ≤ℤ it.remaining_qty
unfolding qty_of check_items
qty_of-fits db listing i [] found left once h = left
qty_of-fits db listing i (ci ∷ cis) {it} found left once h =
    elim (Bool-cases (ci.food_item_id == i)) [
      | inl here ↦
          let same : ci.food_item_id ≡ i = (==_iff ci.food_item_id i).0 here in
          let head =
            check_items-head db listing ci cis (ap (λ k. find k db.food_items) same ∙ found) h in
          let alone =
            qty_of_other i cis
              (ap (includes (map (λ x. x.food_item_id) cis)) (sym same) ∙ once.0) in
          rw (here, alone) (omega (int_laws, head.0))
      | inr other ↦
          let rest =
            qty_of-fits db listing i cis found left once.1 (check_items-tail db listing ci cis h) in
          rw other (omega (int_laws, rest))
    ]

module _ (now : ℕ) (caller : Caller) (dto : CreateClaimDto) (db : Db) (out : ℕ × Db)
    (is_partial : dto.claim_mode ≡ ClaimMode.partial)
    (accepted : claim_listing now caller dto db ≡ ok out) (i : ℕ) (it : FoodItem)
    (found : find i db.food_items ≡ some it) where
  -- A partial claim whose entries name an item at most once leaves at least nothing of every item
  -- that had at least nothing left.
  pub partial_claim_fits :
      NamesOnce dto.claim_items
      → pos 0 ≤ℤ it.remaining_qty
      → (it' : FoodItem) × (find i out.1.food_items ≡ some it') × (pos 0 ≤ℤ it'.remaining_qty)
  partial_claim_fits once left =
      let a = claim_listing-Accepted now caller dto db out accepted in
      let fits =
        qty_of-fits db dto.listing_id i dto.claim_items found left once
          (checked now caller dto db out is_partial accepted a.items a.chosen).1 in
      (
        _,
        partial_claim_takes now caller dto db out is_partial accepted i it found,
        omega (int_laws, fits),
      )

check_items-append :
    (db : Db) (listing : ℕ) (xs ys : List ClaimItem)
    → check_items db listing xs ≡ ok tt
    → check_items db listing ys ≡ ok tt
    → check_items db listing (xs ++ ys) ≡ ok tt
unfolding check_items
check_items-append db listing [] ys h k = k
check_items-append db listing (x ∷ xs) ys h k =
    elim (Option-cases (listing_item db listing x.food_item_id)) [
      | inl missing ↦ absurd (ground arith)
      | inr (item, e) ↦ ground (arith, check_items-append db listing xs ys)
    ]

qty_of-append : (i : ℕ) (xs ys : List ClaimItem) → qty_of i (xs ++ ys) ≡ qty_of i xs +ℤ qty_of i ys
unfolding qty_of
qty_of-append i [] ys = omega int_laws
qty_of-append i (x ∷ xs) ys = rw (qty_of-append i xs ys) (omega int_laws)

-- The request with each of its entries repeated.
abbrev pub repeated : CreateClaimDto → CreateClaimDto
repeated dto = record dto { claim_items = dto.claim_items ++ dto.claim_items }

module _ (now : ℕ) (caller : Caller) (dto : CreateClaimDto) (db : Db) (out : ℕ × Db)
    (is_partial : dto.claim_mode ≡ ClaimMode.partial)
    (accepted : claim_listing now caller dto db ≡ ok out) where
  repeated_data :
      claim_items_data db (repeated dto) dto.claim_mode ≡ ok (dto.claim_items ++ dto.claim_items)
  unfolding claim_items_data
  repeated_data =
      let a = claim_listing-Accepted now caller dto db out accepted in
      let c = checked now caller dto db out is_partial accepted a.items a.chosen in
      rw is_partial (
        ground
          (arith, check_items-append db dto.listing_id dto.claim_items dto.claim_items c.1 c.1))

  repeated_accepted : (out' : ℕ × Db) × (claim_listing now caller (repeated dto) db ≡ ok out')
  unfolding claim_listing
  repeated_accepted =
      let a = claim_listing-Accepted now caller dto db out accepted in
      (
        write_claim a.org caller.site_id (repeated dto) a.l (dto.claim_items ++ dto.claim_items) db,
        rw (a.is_caller, a.has_type, a.found, a.claimable, repeated_data, a.free) refl,
      )

  -- Entries are checked one by one. If a partial claim is accepted, so is the same claim with each
  -- entry repeated; an item of which the entries ask for more than half of what is left then has
  -- less than nothing left.
  pub claim_oversells :
      (i : ℕ) (it : FoodItem)
      → find i db.food_items ≡ some it
      → it.remaining_qty <ℤ qty_of i dto.claim_items +ℤ qty_of i dto.claim_items
      → (out' : ℕ × Db) × (claim_listing now caller (repeated dto) db ≡ ok out')
        × ((it' : FoodItem) × (find i out'.1.food_items ≡ some it') × (it'.remaining_qty <ℤ pos 0))
  claim_oversells i it found over =
      let (out', done) = repeated_accepted in
      let sum = qty_of-append i dto.claim_items dto.claim_items in
      (
        out',
        done,
        (
          record it {
            remaining_qty = it.remaining_qty -ℤ qty_of i (dto.claim_items ++ dto.claim_items);
          },
          partial_claim_takes now caller (repeated dto) db out' is_partial done i it found,
          rw sum (omega (int_laws, over)),
        ),
      )
