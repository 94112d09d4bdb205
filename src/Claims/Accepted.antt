-- ===== src/Claims/Accepted.antt =====
-- What the operations have read when they succeed: the caller's organisation, and the rows.
use svforb.Common.{
  ℕ, ◌≡◌, refl, false, none, some, List, ok, arith, ◌⊎◌, inl, inr, Option-cases, Result-cases,
}
use svforb.Common.Table.{find}
use svforb.Prisma.{OrgType}
use svforb.Store.{FoodListing, FoodClaim, ClaimItem, Db}
use svforb.Claims.{
  Caller, CreateClaimDto, assert_claimable, claim_items_data, has_active_claim, write_claim,
  claim_listing,
}

pub record Accepted (now : ℕ) (caller : Caller) (dto : CreateClaimDto) (db : Db) (out : ℕ × Db)
    : Type 0 where
  pub org : ℕ
  pub org_type : OrgType
  pub l : FoodListing
  pub items : List ClaimItem
  pub is_caller : caller.org_id ≡ some org
  pub has_type : caller.org_type ≡ some org_type
  pub found : find dto.listing_id db.listings ≡ some l
  pub claimable : assert_claimable now org org_type l ≡ ok tt
  pub chosen : claim_items_data db dto dto.claim_mode ≡ ok items
  pub free : has_active_claim dto.listing_id org caller.site_id db.claims.rows ≡ false
  pub written : write_claim org caller.site_id dto l items db ≡ out

pub claim_listing-Accepted :
    (now : ℕ) (caller : Caller) (dto : CreateClaimDto) (db : Db) (out : ℕ × Db)
    → claim_listing now caller dto db ≡ ok out
    → Accepted now caller dto db out
unfolding claim_listing
claim_listing-Accepted now caller dto db out h = elim (Option-cases caller.org_id) [
  | inl e ↦ absurd (ground arith)
  | inr (org, eo) ↦ elim (Option-cases caller.org_type) [
    | inl e ↦ absurd (ground arith)
    | inr (org_type, et) ↦ elim (Option-cases (find dto.listing_id db.listings)) [
      | inl e ↦ absurd (ground arith)
      | inr (l, el) ↦ elim (Result-cases (claim_items_data db dto dto.claim_mode)) [
        | inl (x, e) ↦ absurd (ground arith)
        | inr (items, ei) ↦ record {
          org = org;
          org_type = org_type;
          l = l;
          items = items;
          is_caller = eo;
          has_type = et;
          found = el;
          claimable = ground arith;
          chosen = ei;
          free = ground arith;
          written = ground arith;
        }
      ]
    ]
  ]
]

-- Guards that let a claim through are all that it needs.
pub claim_listing-accepts :
    (now : ℕ) (caller : Caller) (dto : CreateClaimDto) (db : Db) {org : ℕ} {org_type : OrgType}
    {l : FoodListing} {items : List ClaimItem}
    → caller.org_id ≡ some org
    → caller.org_type ≡ some org_type
    → find dto.listing_id db.listings ≡ some l
    → assert_claimable now org org_type l ≡ ok tt
    → claim_items_data db dto dto.claim_mode ≡ ok items
    → has_active_claim dto.listing_id org caller.site_id db.claims.rows ≡ false
    → claim_listing now caller dto db ≡ ok (write_claim org caller.site_id dto l items db)
unfolding claim_listing
claim_listing-accepts now caller dto db member typed found claimable chosen free =
    rw (member, typed, found, claimable, chosen, free) refl

-- The rows that the operations on a claim read first.
pub record Opened (caller : Caller) (id : ℕ) (db : Db) : Type 0 where
  pub org : ℕ
  pub claim : FoodClaim
  pub l : FoodListing
  pub is_caller : caller.org_id ≡ some org
  pub found : find id db.claims ≡ some claim
  pub found_listing : find claim.listing_id db.listings ≡ some l

abbrev pub IsMissing : Caller → ℕ → Db → Type 0
IsMissing caller id db =
    (caller.org_id ≡ none)
    ⊎ ((find id db.claims ≡ none)
        ⊎ ((c : FoodClaim) × (find id db.claims ≡ some c) × (find c.listing_id db.listings ≡ none)))

pub Opened-cases :
    (caller : Caller) (id : ℕ) (db : Db) → IsMissing caller id db ⊎ Opened caller id db
Opened-cases caller id db = elim (Option-cases caller.org_id) [
  | inl e ↦ inl (inl e)
  | inr (org, eo) ↦ elim (Option-cases (find id db.claims)) [
    | inl e ↦ inl (inr (inl e))
    | inr (claim, ec) ↦ elim (Option-cases (find claim.listing_id db.listings)) [
      | inl e ↦ inl (inr (inr (claim, ec, e)))
      | inr (l, el) ↦ inr (record {
        org = org;
        claim = claim;
        l = l;
        is_caller = eo;
        found = ec;
        found_listing = el;
      })
    ]
  ]
]
