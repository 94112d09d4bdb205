-- ===== src/Connection/Rules/Exclusivity.antt =====
-- connection.rules.ts: who may see and claim a listing.
use svforb.Common.{ℕ, ◌≡◌, ◌≢◌, ◌↔◌, true, false, Option, none, some, any, ok, arith}
use svforb.Connection.Rules.{
  ExclusivityView, can_access_listing, declined_by_viewer, assert_can_claim, visibility_where,
  meets,
}

-- The rows that the Prisma filter lets through are exactly those that the claim guard lets a
-- viewer access.
pub visibility_where-eq-access :
    (l : ExclusivityView) (viewer : Option ℕ)
    → any (meets l) (visibility_where viewer) ≡ can_access_listing l viewer
unfolding visibility_where can_access_listing
visibility_where-eq-access l viewer = ground arith

-- The claim guard passes exactly when the listing is public or reserved for the viewer, and it is
-- not one that the viewer has declined.
pub assert_can_claim_iff :
    (l : ExclusivityView) (viewer : Option ℕ)
    → (assert_can_claim l viewer ≡ ok tt)
      ↔ ((can_access_listing l viewer ≡ true) × (declined_by_viewer l viewer ≡ false))
unfolding assert_can_claim
assert_can_claim_iff l viewer = ground arith

-- While a listing is reserved, an organisation that passes the claim guard is the one it is
-- reserved for; once it is released, the guard refuses only the charity that declined it.
pub claim_guard_when :
    (l : ExclusivityView) (org viewer : ℕ)
    → l.exclusive_to_org_id ≡ some org
    → (l.released_at ≡ none → assert_can_claim l (some viewer) ≡ ok tt → viewer ≡ org)
      × (l.released_at ≢ none → viewer ≢ org → assert_can_claim l (some viewer) ≡ ok tt)
unfolding assert_can_claim
claim_guard_when l org viewer e = ground arith
