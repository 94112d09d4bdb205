-- ===== src/Claims/Ledger.antt =====
-- The weight that live claims hold, of a listing and of an item.
use svforb.Common.{
  ℕ, ◌≡◌, Bool, not, ◌&&◌, none, some, List, [], ◌∷◌, ◌++◌, ◌==◌, arith, if◌then◌else◌, ap, ◌∙◌,
  ==_iff, ne→==, Bool-cases, Option-cases, inl, inr,
}
use native.Mathlib.Decide.{ℕ_discrete}
use svforb.Common.Int.{ℤ, pos, ◌+ℤ◌, ◌-ℤ◌, int_laws}
use svforb.Common.Table.{
  Table, lookup, modify, find, update, lookup-modify, lookup-modify_self, lookup-modify_ne,
}
use svforb.Prisma.{ClaimStatus, claim_status_eq}
use svforb.Store.{FoodClaim, ClaimItem, FoodItem, FoodListing, Db}
use svforb.Claims.{total_qty, take_items, restore_items}

-- The sum of a measure over the claims.
unfoldable pub sum_by : (FoodClaim → ℤ) → List (ℕ × FoodClaim) → ℤ
sum_by f [] = pos 0
sum_by f (row ∷ rows) = f row.1 +ℤ sum_by f rows

module _ (f : FoodClaim → ℤ) where
  pub sum_by-append :
      (rows : List (ℕ × FoodClaim)) (n : ℕ) (c : FoodClaim)
      → sum_by f (rows ++ (n, c) ∷ []) ≡ sum_by f rows +ℤ f c
  unfolding sum_by
  sum_by-append [] n c = omega int_laws
  sum_by-append (row ∷ rows) n c = rw (sum_by-append rows n c) (omega int_laws)

  -- Changing one claim moves the sum by the change of its part.
  pub sum_by-modify :
      (k : ℕ) (g : FoodClaim → FoodClaim) (rows : List (ℕ × FoodClaim)) {c : FoodClaim}
      → lookup k rows ≡ some c
      → sum_by f (modify k g rows) +ℤ f c ≡ sum_by f rows +ℤ f (g c)
  unfolding sum_by
  sum_by-modify k g [] e = absurd (cc)
  sum_by-modify k g (row ∷ rows) {c} e = elim (Bool-cases (row.0 == k)) [
    | inl here ↦ let same : row.1 ≡ c = ground arith in rw (here, ← same) (omega int_laws)
    | inr further ↦
        let ih = sum_by-modify k g rows {c = c} (rw further at e) in rw further (grind int_laws)
  ]

-- A claim that is not cancelled holds the weight of its items.
abbrev pub is_live : FoodClaim → Bool
is_live c = not (claim_status_eq c.status ClaimStatus.cancelled)

-- What a claim holds of a listing, and of a food item.
abbrev pub held_of_listing : ℕ → FoodClaim → ℤ
held_of_listing listing c =
    if is_live c && c.listing_id == listing then total_qty c.claim_items else pos 0

unfoldable pub qty_of : ℕ → List ClaimItem → ℤ
qty_of i [] = pos 0
qty_of i (ci ∷ cis) = (if ci.food_item_id == i then ci.qty else pos 0) +ℤ qty_of i cis

abbrev pub held_of_item : ℕ → FoodClaim → ℤ
held_of_item i c = if is_live c then qty_of i c.claim_items else pos 0

-- Every listing has left what its live claims do not hold, and so has every food item.
pub record IsConserved (db : Db) : Type 0 where
  pub by_listing :
      (i : ℕ) (l : FoodListing)
      → find i db.listings ≡ some l
      → l.remaining_qty +ℤ sum_by (held_of_listing i) db.claims.rows ≡ l.total_qty
  pub by_item :
      (i : ℕ) (it : FoodItem)
      → find i db.food_items ≡ some it
      → it.remaining_qty +ℤ sum_by (held_of_item i) db.claims.rows ≡ it.total_qty

abbrev set_left : FoodItem → ℤ → FoodItem
set_left it left = record it { remaining_qty = left }

sub_zero : (a : ℤ) → a ≡ a -ℤ pos 0
sub_zero a = omega int_laws

add_zero : (a : ℤ) → a ≡ a +ℤ pos 0
add_zero a = omega int_laws

sub_sub : (a b c : ℤ) → a -ℤ b -ℤ c ≡ a -ℤ (b +ℤ c)
sub_sub a b c = omega int_laws

add_add : (a b c : ℤ) → a +ℤ b +ℤ c ≡ a +ℤ (b +ℤ c)
add_add a b c = omega int_laws

zero_add : (a : ℤ) → pos 0 +ℤ a ≡ a
zero_add a = omega int_laws

-- A claim takes from a food item what its entries for it add up to.
pub take_items_lem :
    (i : ℕ) (cis : List ClaimItem) (t : Table FoodItem) {it : FoodItem}
    → find i t ≡ some it
    → find i (take_items cis t)
      ≡ some (record it { remaining_qty = it.remaining_qty -ℤ qty_of i cis })
unfolding take_items qty_of
take_items_lem i [] t {it} e = e ∙ ap (λ q. some (set_left it q)) (sub_zero it.remaining_qty)
take_items_lem i (ci ∷ cis) t {it} e =
    let taken =
      update ci.food_item_id (λ r. record r { remaining_qty = r.remaining_qty -ℤ ci.qty }) t in
    elim (ℕ_discrete ci.food_item_id i) [
      | yes here ↦
          let e' : find i taken ≡ some (set_left it (it.remaining_qty -ℤ ci.qty)) =
            rw here (lookup-modify_self i _ t.rows e) in
          rw (take_items_lem i cis taken e', (==_iff ci.food_item_id i).1 here)
            (ap (λ q. some (set_left it q)) (sub_sub it.remaining_qty ci.qty (qty_of i cis)))
      | no other ↦
          let e' : find i taken ≡ some it = lookup-modify_ne ci.food_item_id i _ t.rows other ∙ e in
          rw (take_items_lem i cis taken e', ne→== other, zero_add)
    ]

-- A cancellation gives the same weight back.
pub restore_items_lem :
    (i : ℕ) (cis : List ClaimItem) (t : Table FoodItem) {it : FoodItem}
    → find i t ≡ some it
    → find i (restore_items cis t)
      ≡ some (record it { remaining_qty = it.remaining_qty +ℤ qty_of i cis })
unfolding restore_items qty_of
restore_items_lem i [] t {it} e = e ∙ ap (λ q. some (set_left it q)) (add_zero it.remaining_qty)
restore_items_lem i (ci ∷ cis) t {it} e =
    let given =
      update ci.food_item_id (λ r. record r { remaining_qty = r.remaining_qty +ℤ ci.qty }) t in
    elim (ℕ_discrete ci.food_item_id i) [
      | yes here ↦
          let e' : find i given ≡ some (set_left it (it.remaining_qty +ℤ ci.qty)) =
            rw here (lookup-modify_self i _ t.rows e) in
          rw (restore_items_lem i cis given e', (==_iff ci.food_item_id i).1 here)
            (ap (λ q. some (set_left it q)) (add_add it.remaining_qty ci.qty (qty_of i cis)))
      | no other ↦
          let e' : find i given ≡ some it = lookup-modify_ne ci.food_item_id i _ t.rows other ∙ e in
          rw (restore_items_lem i cis given e', ne→== other, zero_add)
    ]

pub take_items-none :
    (i : ℕ) (cis : List ClaimItem) (t : Table FoodItem)
    → find i t ≡ none
    → find i (take_items cis t) ≡ none
unfolding take_items
take_items-none i [] t e = e
take_items-none i (ci ∷ cis) t e = take_items-none i cis _ (
    ground (
      arith,
      lookup-modify ci.food_item_id i
          (λ (r : FoodItem). record r { remaining_qty = r.remaining_qty -ℤ ci.qty }) t.rows,
    ))

pub restore_items-none :
    (i : ℕ) (cis : List ClaimItem) (t : Table FoodItem)
    → find i t ≡ none
    → find i (restore_items cis t) ≡ none
unfolding restore_items
restore_items-none i [] t e = e
restore_items-none i (ci ∷ cis) t e = restore_items-none i cis _ (
    ground (
      arith,
      lookup-modify ci.food_item_id i
          (λ (r : FoodItem). record r { remaining_qty = r.remaining_qty +ℤ ci.qty }) t.rows,
    ))

-- Where a row of the items table comes from after a claim, and after a cancellation.
pub take_items_inv :
    (i : ℕ) (cis : List ClaimItem) (t : Table FoodItem) {it' : FoodItem}
    → find i (take_items cis t) ≡ some it'
    → (it : FoodItem) × (find i t ≡ some it)
      × (it' ≡ record it { remaining_qty = it.remaining_qty -ℤ qty_of i cis })
take_items_inv i cis t {it'} e = elim (Option-cases (find i t)) [
  | inl missing ↦ absurd (cc (e, take_items-none i cis t missing))
  | inr (it, found) ↦ (it, found, cc (e, take_items_lem i cis t found))
]

pub restore_items_inv :
    (i : ℕ) (cis : List ClaimItem) (t : Table FoodItem) {it' : FoodItem}
    → find i (restore_items cis t) ≡ some it'
    → (it : FoodItem) × (find i t ≡ some it)
      × (it' ≡ record it { remaining_qty = it.remaining_qty +ℤ qty_of i cis })
restore_items_inv i cis t {it'} e = elim (Option-cases (find i t)) [
  | inl missing ↦ absurd (cc (e, restore_items-none i cis t missing))
  | inr (it, found) ↦ (it, found, cc (e, restore_items_lem i cis t found))
]
