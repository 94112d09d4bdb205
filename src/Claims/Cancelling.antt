-- ===== src/Claims/Cancelling.antt =====
-- `cancelClaim` after `claimListing`: what was taken is given back.
use svforb.Common.{
  ℕ, ◌≡◌, refl, sym, ap, ◌∙◌, Option, some, List, ok, err, bad_request, arith, inl, inr, Bool-cases,
  Option-cases, if◌then◌else◌, ◌+◌,
}
use svforb.Common.Int.{ℤ, pos, leb_ℤ, ◌+ℤ◌, ◌-ℤ◌, int_laws}
use svforb.Common.Table.{Table, find, Below, lookup-append_new, lookup-modify_self}
use svforb.Prisma.{ListingStatus, ClaimStatus}
use svforb.Store.{FoodListing, FoodItem, ClaimItem, FoodClaim, Db}
use svforb.Claims.{
  Caller, CreateClaimDto, total_qty, take_items, restore_items, status_after_claim, new_claim,
  write_claim, claim_listing,
}
use svforb.Claims.Accepted.{claim_listing-Accepted}
use svforb.Claims.Lifecycle.{cancel_claim, write_cancel, give_back}
use svforb.Claims.Ledger.{
  qty_of, take_items_lem, restore_items_lem, take_items-none, restore_items-none,
}

abbrev left : FoodItem → ℤ → FoodItem
left it q = record it { remaining_qty = q }

sub_add : (a b : ℤ) → a -ℤ b +ℤ b ≡ a
sub_add a b = omega int_laws

restore_items-take_items :
    (i : ℕ) (cis : List ClaimItem) (t : Table FoodItem)
    → find i (restore_items cis (take_items cis t)) ≡ find i t
restore_items-take_items i cis t = elim (Option-cases (find i t)) [
  | inl missing ↦
      restore_items-none i cis (take_items cis t) (take_items-none i cis t missing) ∙ sym missing
  | inr (it, found) ↦
      let given = restore_items_lem i cis (take_items cis t) (take_items_lem i cis t found) in
      given ∙ ap (λ q. some (left it q)) (sub_add it.remaining_qty (qty_of i cis)) ∙ sym found
]

give_back_claimed :
    (l : FoodListing) (q : ℤ)
    → give_back q (record l {
      remaining_qty = l.remaining_qty -ℤ q;
      status = status_after_claim (l.remaining_qty -ℤ q);
      unique_claimant_count = l.unique_claimant_count + 1;
    })
      ≡ record l {
        status =
            if leb_ℤ l.total_qty l.remaining_qty
            then ListingStatus.active
            else ListingStatus.partial;
        unique_claimant_count = l.unique_claimant_count + 1;
      }
give_back_claimed l q =
    rw (sub_add l.remaining_qty q) (elim (Bool-cases (leb_ℤ (l.remaining_qty -ℤ q) (pos 0))) [
      | inl e ↦ rw e refl
      | inr e ↦ rw e refl
    ])

module _ (org : ℕ) (site : Option ℕ) (dto : CreateClaimDto) (l : FoodListing)
    (items : List ClaimItem) (db : Db) (found : find dto.listing_id db.listings ≡ some l)
    (fresh : Below db.claims.next db.claims.rows) where
  abbrev claimed : ℕ × Db
  claimed = write_claim org site dto l items db

  abbrev new : FoodClaim
  new = new_claim org site dto items

  abbrev l_claimed : FoodListing
  l_claimed = record l {
    remaining_qty = l.remaining_qty -ℤ total_qty items;
    status = status_after_claim (l.remaining_qty -ℤ total_qty items);
    unique_claimant_count = l.unique_claimant_count + 1;
  }

  new_found : find claimed.0 claimed.1.claims ≡ some new
  unfolding write_claim
  new_found = lookup-append_new db.claims.next new db.claims.rows fresh

  l_found : find dto.listing_id claimed.1.listings ≡ some l_claimed
  unfolding write_claim
  l_found = lookup-modify_self dto.listing_id _ db.listings.rows found

  items_back :
      (i : ℕ) → find i (write_cancel org claimed.0 new claimed.1).food_items ≡ find i db.food_items
  unfolding write_claim write_cancel
  items_back i = restore_items-take_items i items db.food_items

  l_back :
      find dto.listing_id (write_cancel org claimed.0 new claimed.1).listings
      ≡ some (record l {
        status =
            if leb_ℤ l.total_qty l.remaining_qty
            then ListingStatus.active
            else ListingStatus.partial;
        unique_claimant_count = l.unique_claimant_count + 1;
      })
  unfolding write_cancel
  l_back =
      let given =
        lookup-modify_self dto.listing_id (give_back (total_qty items)) claimed.1.listings.rows
          l_found in
      given ∙ ap some (give_back_claimed l (total_qty items))

  abbrev cancelled_claim : FoodClaim
  cancelled_claim = record new { status = ClaimStatus.cancelled }

  claim_after :
      find claimed.0 (write_cancel org claimed.0 new claimed.1).claims ≡ some cancelled_claim
  unfolding write_cancel
  claim_after =
      lookup-modify_self claimed.0 (λ c. record c { status = ClaimStatus.cancelled })
        claimed.1.claims.rows new_found

  refused :
      (caller : Caller)
      → caller.org_id ≡ some org
      → cancel_claim caller claimed.0 (write_cancel org claimed.0 new claimed.1)
        ≡ err (bad_request "Claim is already cancelled")
  unfolding cancel_claim
  refused caller e = ground (arith, claim_after, l_back)

  cancelled :
      (caller : Caller)
      → caller.org_id ≡ some org
      → cancel_claim caller claimed.0 claimed.1 ≡ ok (write_cancel org claimed.0 new claimed.1)
  unfolding cancel_claim
  cancelled caller e = ground (arith, new_found, l_found)

-- In a database whose claims have ids below the next one, a claim that its claimant cancels at
-- once is cancelled and cannot be cancelled a second time, every food item has what it had before,
-- and so has the listing: it is active again if all of it is left, and partly claimed otherwise.
pub cancel_claim-claim_listing :
    (now : ℕ) (caller : Caller) (dto : CreateClaimDto) (db : Db) (out : ℕ × Db) (l : FoodListing)
    → Below db.claims.next db.claims.rows
    → find dto.listing_id db.listings ≡ some l
    → claim_listing now caller dto db ≡ ok out
    → (db' : Db) × (cancel_claim caller out.0 out.1 ≡ ok db')
      × ((c : FoodClaim) × (find out.0 db'.claims ≡ some c) × (c.status ≡ ClaimStatus.cancelled))
      × (cancel_claim caller out.0 db' ≡ err (bad_request "Claim is already cancelled"))
      × ((i : ℕ) → find i db'.food_items ≡ find i db.food_items)
      × (find dto.listing_id db'.listings
          ≡ some (record l {
            status =
                if leb_ℤ l.total_qty l.remaining_qty
                then ListingStatus.active
                else ListingStatus.partial;
            unique_claimant_count = l.unique_claimant_count + 1;
          }))
cancel_claim-claim_listing now caller dto db out l fresh found h =
    let a = claim_listing-Accepted now caller dto db out h in
    let same : a.l ≡ l = cc (a.found, found) in
    let written : write_claim a.org caller.site_id dto l a.items db ≡ out = cc (a.written, same) in
    rw (← written) (
      write_cancel a.org (write_claim a.org caller.site_id dto l a.items db).0
          (new_claim a.org caller.site_id dto a.items)
          (write_claim a.org caller.site_id dto l a.items db).1,
      cancelled a.org caller.site_id dto l a.items db found fresh caller a.is_caller,
      (
        record (new_claim a.org caller.site_id dto a.items) { status = ClaimStatus.cancelled },
        claim_after a.org caller.site_id dto l a.items db found fresh,
        refl,
      ),
      refused a.org caller.site_id dto l a.items db found fresh caller a.is_caller,
      items_back a.org caller.site_id dto l a.items db found fresh,
      l_back a.org caller.site_id dto l a.items db found fresh,
    )
