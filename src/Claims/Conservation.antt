-- ===== src/Claims/Conservation.antt =====
-- No operation of the claim service creates or loses weight.
use svforb.Common.{ℕ, ◌≡◌, true, Option, some, List, arith, ◌==◌, Bool-cases, inl, inr}
use svforb.Common.Int.{◌+ℤ◌, int_laws}
use svforb.Common.Table.{find, modify, lookup-modify_inv}
use svforb.Prisma.{ClaimStatus}
use svforb.Store.{FoodListing, FoodItem, FoodClaim, ClaimItem, Db}
use svforb.Claims.{CreateClaimDto, total_qty, new_claim, write_claim}
use svforb.Claims.Lifecycle.{write_cancel, give_back}
use svforb.Claims.Ledger.{
  sum_by, sum_by-append, sum_by-modify, held_of_listing, held_of_item, IsConserved, is_live,
  take_items_inv, restore_items_inv,
}

module _ (org : ℕ) (site : Option ℕ) (dto : CreateClaimDto) (l : FoodListing)
    (items : List ClaimItem) (db : Db) (found : find dto.listing_id db.listings ≡ some l)
    (c : IsConserved db) where
  abbrev pub after : Db
  after = (write_claim org site dto l items db).1

  listing_after_claim :
      (i : ℕ) (l' : FoodListing)
      → find i after.listings ≡ some l'
      → l'.remaining_qty +ℤ sum_by (held_of_listing i) after.claims.rows ≡ l'.total_qty
  unfolding write_claim
  listing_after_claim i l' e =
      let (l0, found0, same) = lookup-modify_inv dto.listing_id i _ db.listings.rows e in
      let added =
        sum_by-append (held_of_listing i) db.claims.rows db.claims.next
          (new_claim org site dto items) in
      let before = c.by_listing i l0 found0 in
      elim (Bool-cases (dto.listing_id == i)) [
        | inl here ↦
            let same_listing : l0 ≡ l = ground arith in rw (same, added, here) (grind int_laws)
        | inr other ↦ rw (same, added, other) (grind int_laws)
      ]

  item_after_claim :
      (i : ℕ) (it' : FoodItem)
      → find i after.food_items ≡ some it'
      → it'.remaining_qty +ℤ sum_by (held_of_item i) after.claims.rows ≡ it'.total_qty
  unfolding write_claim
  item_after_claim i it' e =
      let (it, found_it, same) = take_items_inv i items db.food_items e in
      let added =
        sum_by-append (held_of_item i) db.claims.rows db.claims.next
          (new_claim org site dto items) in
      let before = c.by_item i it found_it in rw (same, added) (grind int_laws)

  pub write_claim-IsConserved : IsConserved after
  write_claim-IsConserved = record { by_listing = listing_after_claim; by_item = item_after_claim }

module _ (db : Db) (id : ℕ) (claim : FoodClaim) (found : find id db.claims ≡ some claim) where
  -- A write that changes a claim, but neither what it holds nor any listing or item.
  module _ (db' : Db) (g : FoodClaim → FoodClaim) (listings : db'.listings ≡ db.listings)
      (items : db'.food_items ≡ db.food_items)
      (claims : db'.claims.rows ≡ modify id g db.claims.rows)
      (same_status : is_live (g claim) ≡ is_live claim)
      (same_listing : (g claim).listing_id ≡ claim.listing_id)
      (same_items : (g claim).claim_items ≡ claim.claim_items) where
    pub kept-IsConserved : IsConserved db → IsConserved db'
    kept-IsConserved c = record {
      by_listing = λ i l e.
          let changed = sum_by-modify (held_of_listing i) id g db.claims.rows found in
          let kept : held_of_listing i (g claim) ≡ held_of_listing i claim =
            rw (same_status, same_listing, same_items) in
          let before = c.by_listing i l (rw listings at e) in rw claims (grind int_laws);
      by_item = λ i it e.
          let changed = sum_by-modify (held_of_item i) id g db.claims.rows found in
          let kept : held_of_item i (g claim) ≡ held_of_item i claim =
            rw (same_status, same_items) in
          let before = c.by_item i it (rw items at e) in rw claims (grind int_laws);
    }

  module _ (org : ℕ) (live : is_live claim ≡ true) (c : IsConserved db) where
    abbrev pub after_cancel : Db
    after_cancel = write_cancel org id claim db

    listing_after_cancel :
        (i : ℕ) (l' : FoodListing)
        → find i after_cancel.listings ≡ some l'
        → l'.remaining_qty +ℤ sum_by (held_of_listing i) after_cancel.claims.rows ≡ l'.total_qty
    unfolding write_cancel
    listing_after_cancel i l' e =
        let (l, found_l, same) =
          lookup-modify_inv claim.listing_id i (give_back (total_qty claim.claim_items))
            db.listings.rows e in
        let changed =
          sum_by-modify (held_of_listing i) id
            (λ (r : FoodClaim). record r { status = ClaimStatus.cancelled }) db.claims.rows found in
        let before = c.by_listing i l found_l in
        elim (Bool-cases (claim.listing_id == i)) [
          | inl here ↦ rw (same, here) (grind int_laws)
          | inr other ↦ rw (same, other) (grind int_laws)
        ]

    item_after_cancel :
        (i : ℕ) (it' : FoodItem)
        → find i after_cancel.food_items ≡ some it'
        → it'.remaining_qty +ℤ sum_by (held_of_item i) after_cancel.claims.rows ≡ it'.total_qty
    unfolding write_cancel
    item_after_cancel i it' e =
        let (it, found_it, same) = restore_items_inv i claim.claim_items db.food_items e in
        let changed =
          sum_by-modify (held_of_item i) id
            (λ (r : FoodClaim). record r { status = ClaimStatus.cancelled }) db.claims.rows found in
        let before = c.by_item i it found_it in rw same (grind int_laws)

    pub write_cancel-IsConserved : IsConserved after_cancel
    write_cancel-IsConserved = record {
      by_listing = listing_after_cancel;
      by_item = item_after_cancel;
    }
