-- ===== src/Listings/Tests.antt =====
-- foodlisting: runs at concrete inputs. Organisation 1 has a listing of 10 kg, of which
-- organisation 7 has claimed 4; another listing is reserved for organisation 7.
use mathlib.Core.Path.{subst}
use svforb.Common.{
  ℕ, ◌≡◌, refl, true, false, none, some, List, [], ◌∷◌, ok, err, arith, inl, inr, not_found,
}
use svforb.Common.Int.{pos, ◌+ℤ◌}
use svforb.Common.Table.{Table, find}
use svforb.Prisma.{ListingStatus, pending, ClaimMode, human}
use svforb.Store.{FoodListing, FoodItem, FoodClaim, Site, Db}
use svforb.Claims.{Caller, total_qty}
use svforb.Claims.Ledger.{IsConserved, sum_by, qty_of}
use svforb.Enterprise.Permissions.{assert_not_view_only}
use svforb.Listings.{
  CreateFoodListingDto, create_listing, cancel_listing, expire_listing_if_due,
  handle_sweep_expired_listings, resolve_caller_site_id, write_listing, resolve_listing_expiry_at,
}
use svforb.Listings.Expiry.{sweep-expires, count_overdue, expired}
use svforb.Listings.Balance.{IsSound, HasKeys, Names}
use svforb.Listings.Requests.{
  create_a_listing, cancel_a_listing, expire_a_listing, sweep_listings, Request, handle_all,
  handle_all-IsSound,
}
use svforb.Listings.Writes.{withdrawn, cancel_listing-of_anyone}

abbrev rolls : FoodListing
rolls = record {
  organisation_id = 1;
  listing_type = human;
  total_qty = pos 10;
  remaining_qty = pos 6;
  best_before = 1000;
  pickup_from_time = none;
  pickup_by_time = some 900;
  status = ListingStatus.partial;
  unique_claimant_count = 1;
  connection_id = none;
  exclusive_to_org_id = none;
  exclusive_until = none;
  released_at = none;
  released_reason = none;
}

abbrev reserved : FoodListing
reserved = record rolls {
  total_qty = pos 3;
  remaining_qty = pos 3;
  status = ListingStatus.active;
  exclusive_to_org_id = some 7;
}

abbrev baker : Caller
baker = record {
  user_id = 10;
  org_id = some 1;
  org_type = none;
  site_id = none;
  is_super_admin = true;
  is_org_admin = false;
  enterprise_role = none;
}

-- Somebody who has signed in and belongs to no organisation.
abbrev stranger : Caller
stranger = record baker { user_id = 99; org_id = none; is_super_admin = false }

abbrev four_kilos : FoodClaim
four_kilos = record {
  listing_id = 3;
  claimant_org_id = 7;
  claimant_site_id = none;
  claim_mode = ClaimMode.partial;
  status = pending;
  claim_items = record { food_item_id = 1; qty = pos 4 } ∷ [];
  rating = none;
  confirmed_at = none;
  collected_at = none;
  provider_confirmed_at = none;
  provider_rating = none;
  provider_did_collect = none;
}

abbrev empty {ℓ} : {A : Type ℓ} → Table A
empty = record { next = 1; rows = [] }

abbrev two_kilos : FoodItem
two_kilos = record { listing_id = 3; total_qty = pos 6; remaining_qty = pos 2 }

abbrev site : Site
site = record { organisation_id = 1; is_active = true; timezone = none }

abbrev bakery : Db
bakery = record {
  listings = record { next = 5; rows = (3, rolls) ∷ (4, reserved) ∷ [] };
  food_items = record { next = 2; rows = (1, two_kilos) ∷ [] };
  claims = record { next = 2; rows = (1, four_kilos) ∷ [] };
  pickups = empty;
  organisations = empty;
  connections = empty;
  days = empty;
  sites = record { next = 3; rows = (2, site) ∷ [] };
  users = empty;
  site_access = [];
  supports = [];
  activities = [];
}

-- Soup for the evening that is best before noon.
abbrev soup : CreateFoodListingDto
soup = record {
  site_id = 2;
  listing_type = human;
  food_items = pos 2 ∷ pos 1 ∷ [];
  best_before = 500;
  pickup_from_time = some 600;
  pickup_by_time = some 800;
}

abbrev after_soup : Db
after_soup = (write_listing 1 1 soup bakery).1

soup-stranger :
    create_listing (record stranger { org_id = some 8 }) soup bakery
    ≡ err (not_found "Site not found in your organisation")
unfolding create_listing assert_not_view_only
soup-stranger = refl

first_site-found : resolve_caller_site_id baker bakery ≡ some 2
unfolding resolve_caller_site_id
first_site-found = refl

none_for_stranger : resolve_caller_site_id stranger bakery ≡ none
unfolding resolve_caller_site_id
none_for_stranger = refl

-- The reserved listing stays.
swept-once :
    (handle_sweep_expired_listings 2000 bakery).listings
    ≡ record { next = 5; rows = (3, expired rolls) ∷ (4, reserved) ∷ [] }
unfolding handle_sweep_expired_listings expire_listing_if_due
swept-once = refl

bakery-IsConserved : IsConserved bakery
unfolding sum_by ◌+ℤ◌ qty_of total_qty
bakery-IsConserved = record { by_listing = λ i l e. ground arith; by_item = λ i it e. ground arith }

bakery-HasKeys : HasKeys bakery
bakery-HasKeys = record {
  to_listing = λ row stands. ground arith;
  to_items = λ row stands. elim stands [
    | inl e ↦ subst (λ (r : ℕ × FoodClaim). Names 2 r.1.claim_items) e (ground arith, tt)
    | inr n ↦ absurd n
  ];
}

bakery-IsSound : IsSound bakery
bakery-IsSound = record { conserved = bakery-IsConserved; keys = bakery-HasKeys }

abbrev requests : List Request
requests =
    create_a_listing baker soup
    ∷ expire_a_listing 700 5
    ∷ sweep_listings 850
    ∷ cancel_a_listing baker 4
    ∷ sweep_listings 2000
    ∷ []

handle_all-IsSound_example : IsSound (handle_all requests bakery)
handle_all-IsSound_example = handle_all-IsSound requests bakery bakery-IsSound

sweep-expires_example :
    find 3 (handle_sweep_expired_listings 2000 bakery).listings ≡ some (expired rolls)
unfolding count_overdue resolve_listing_expiry_at
sweep-expires_example = sweep-expires 2000 bakery (omega arith) 3 refl

cancel_listing-of_anyone_example :
    (out : Db) × (cancel_listing stranger 3 bakery ≡ ok out)
    × (find 3 out.listings ≡ some (withdrawn rolls))
unfolding assert_not_view_only
cancel_listing-of_anyone_example =
    cancel_listing-of_anyone stranger 3 bakery refl refl refl (ground arith)
