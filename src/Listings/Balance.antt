-- ===== src/Listings/Balance.antt =====
-- The weights that the writes on listings leave.
use svforb.Common.{
  ℕ, ◌≡◌, ◌≤◌, ◌<◌, refl, some, List, [], ◌∷◌, ◌++◌, ◌==◌, ◌⊎◌, arith, Bool-cases, inl, inr, In,
}
use svforb.Common.Int.{ℤ, pos, ◌+ℤ◌, int_laws}
use svforb.Common.Table.{Table, create, find, lookup, update, lookup-modify_inv}
use svforb.Store.{FoodClaim, ClaimItem, FoodListing, FoodItem, Db}
use svforb.Claims.Ledger.{IsConserved, sum_by, held_of_listing, held_of_item, qty_of}
use svforb.Connection.Daily.{create_items}
use svforb.Listings.{CreateFoodListingDto, write_listing, new_listing}

-- The foreign keys of claims: they name listings and items that have been created.
abbrev pub Names : ℕ → List ClaimItem → Type 0
Names bound [] = Unit {0}
Names bound (ci ∷ cis) = (ci.food_item_id < bound) × Names bound cis

pub record HasKeys (db : Db) : Type 0 where
  pub to_listing :
      (row : ℕ × FoodClaim) → In row db.claims.rows → row.1.listing_id < db.listings.next
  pub to_items :
      (row : ℕ × FoodClaim) → In row db.claims.rows → Names db.food_items.next row.1.claim_items

qty_of-fresh :
    (i bound : ℕ) (cis : List ClaimItem) → bound ≤ i → Names bound cis → qty_of i cis ≡ pos 0
unfolding qty_of
qty_of-fresh i bound [] h n = refl
qty_of-fresh i bound (ci ∷ cis) h n = rw (qty_of-fresh i bound cis h n.1) (grind (arith, int_laws))

sum_by-zero :
    (f : FoodClaim → ℤ) (rows : List (ℕ × FoodClaim))
    → ((row : ℕ × FoodClaim) → In row rows → f row.1 ≡ pos 0)
    → sum_by f rows ≡ pos 0
unfolding sum_by
sum_by-zero f [] h = refl
sum_by-zero f (row ∷ rows) h =
    rw (h row (inl refl), sum_by-zero f rows (λ r i. h r (inr i))) (omega int_laws)

lookup-append_inv :
    {R : Type 0} (j n : ℕ) (new : R) (rs : List (ℕ × R)) {r : R}
    → lookup j (rs ++ (n, new) ∷ []) ≡ some r
    → (lookup j rs ≡ some r) ⊎ ((j ≡ n) × (r ≡ new))
lookup-append_inv j n new [] {r} e = elim (Bool-cases (n == j)) [
  | inl here ↦ inr (ground arith)
  | inr other ↦ absurd (ground arith)
]
lookup-append_inv j n new ((i, s) ∷ rs) {r} e = elim (Bool-cases (i == j)) [
  | inl here ↦ inl (ground arith)
  | inr other ↦ elim (lookup-append_inv j n new rs {r = r} (ground arith)) [
    | inl old ↦ inl (ground arith)
    | inr fresh ↦ inr fresh
  ]
]

-- The items of a new listing are whole, and the others are as they were.
create_items_inv :
    (listing : ℕ) (weights : List ℤ) (t : Table FoodItem) (i : ℕ) {it : FoodItem}
    → find i (create_items listing weights t) ≡ some it
    → (find i t ≡ some it) ⊎ ((t.next ≤ i) × (it.remaining_qty ≡ it.total_qty))
unfolding create_items
create_items_inv listing [] t i e = inl e
create_items_inv listing (q ∷ qs) t i {it} e =
    let made : FoodItem = record { listing_id = listing; total_qty = q; remaining_qty = q } in
    elim (create_items_inv listing qs (create made t).1 i {it = it} e) [
      | inr (later, whole) ↦ inr (ground arith, whole)
      | inl here ↦ elim (lookup-append_inv i t.next made t.rows {r = it} here) [
        | inl old ↦ inl old
        | inr (same, fresh) ↦ inr (ground arith, ground arith)
      ]
    ]

module _ (dto : CreateFoodListingDto) (db : Db) (keys : HasKeys db) (c : IsConserved db) where
  listing_after_creation :
      (org site_org i : ℕ) (l : FoodListing)
      → find i (write_listing org site_org dto db).1.listings ≡ some l
      → l.remaining_qty +ℤ sum_by (held_of_listing i) db.claims.rows ≡ l.total_qty
  unfolding write_listing
  listing_after_creation org site_org i l e =
      elim (lookup-append_inv i db.listings.next (new_listing org dto) db.listings.rows {r = l} e) [
        | inl old ↦ c.by_listing i l old
        | inr (same, fresh) ↦
            let nothing =
              sum_by-zero (held_of_listing i) db.claims.rows
                (λ row stands. let known = keys.to_listing row stands in ground arith) in
            rw (nothing, fresh) (omega int_laws)
      ]

  item_after_creation :
      (org site_org i : ℕ) (it : FoodItem)
      → find i (write_listing org site_org dto db).1.food_items ≡ some it
      → it.remaining_qty +ℤ sum_by (held_of_item i) db.claims.rows ≡ it.total_qty
  unfolding write_listing
  item_after_creation org site_org i it e =
      elim (create_items_inv db.listings.next dto.food_items db.food_items i {it = it} e) [
        | inl old ↦ c.by_item i it old
        | inr (later, whole) ↦
            let nothing = sum_by-zero (held_of_item i) db.claims.rows (λ row stands.
              let none_of_it =
                qty_of-fresh i db.food_items.next row.1.claim_items later
                  (keys.to_items row stands) in
              ground arith) in
            rw (nothing, whole) (omega int_laws)
      ]

-- Weights that add up, over claims that name listings and items that were created.
pub record IsSound (db : Db) : Type 0 where
  pub conserved : IsConserved db
  pub keys : HasKeys db

Names-mono : (m n : ℕ) (cis : List ClaimItem) → m ≤ n → Names m cis → Names n cis
Names-mono m n [] h k = k
Names-mono m n (ci ∷ cis) h k = (ground arith, Names-mono m n cis h k.1)

create_items-next :
    (listing : ℕ) (weights : List ℤ) (t : Table FoodItem)
    → t.next ≤ (create_items listing weights t).next
unfolding create_items
create_items-next listing [] t = omega arith
create_items-next listing (q ∷ qs) t =
    let made : FoodItem = record { listing_id = listing; total_qty = q; remaining_qty = q } in
    let later = create_items-next listing qs (create made t).1 in omega arith

pub write_listing-IsSound :
    (org site_org : ℕ) (dto : CreateFoodListingDto) (db : Db)
    → IsSound db
    → IsSound (write_listing org site_org dto db).1
unfolding write_listing
write_listing-IsSound org site_org dto db s = record {
  conserved = record {
    by_listing = listing_after_creation dto db s.keys s.conserved org site_org;
    by_item = item_after_creation dto db s.keys s.conserved org site_org;
  };
  keys = record {
    to_listing = λ row stands. let known = s.keys.to_listing row stands in omega arith;
    to_items = λ row stands.
        Names-mono db.food_items.next _ row.1.claim_items
          (create_items-next db.listings.next dto.food_items db.food_items)
          (s.keys.to_items row stands);
  };
}

-- A change of one listing that keeps its weights.
module _ (db db' : Db) (id : ℕ) (f : FoodListing → FoodListing)
    (listings : db'.listings ≡ update id f db.listings) (claims : db'.claims ≡ db.claims)
    (items : db'.food_items ≡ db.food_items)
    (same_left : (l : FoodListing) → (f l).remaining_qty ≡ l.remaining_qty)
    (same_total : (l : FoodListing) → (f l).total_qty ≡ l.total_qty) where
  pub restated-IsSound : IsSound db → IsSound db'
  restated-IsSound s = record {
    conserved = record {
      by_listing = λ i l' e.
          let (l, found, same) = lookup-modify_inv id i f db.listings.rows (rw listings at e) in
          let before = s.conserved.by_listing i l found in
          elim (Bool-cases (id == i)) [
            | inl here ↦ rw (claims, same, here, same_left l, same_total l) before
            | inr other ↦ rw (claims, same, other) before
          ];
      by_item = λ i it e. rw claims (s.conserved.by_item i it (rw items at e));
    };
    keys = record {
      to_listing = λ row stands. rw listings (s.keys.to_listing row (rw claims at stands));
      to_items = λ row stands. rw items (s.keys.to_items row (rw claims at stands));
    };
  }
