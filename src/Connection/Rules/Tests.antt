-- ===== src/Connection/Rules/Tests.antt =====
-- connection.rules.ts: runs at concrete inputs.
use svforb.Common.{◌≡◌, ◌↔◌, refl, true, false, none, some, any, ok, err, conflict, arith}
use svforb.Prisma.{ConnectionStatus, published, ListingReleaseReason}
use svforb.Connection.Rules.{
  ExclusivityView, SweepDay, ReliabilityCounts, can_transition, assert_transition, is_collecting,
  visibility_where, meets, can_access_listing, declined_by_viewer, assert_can_claim,
  should_auto_release, assert_distinct_sites, ReleaseTrigger, release_reason_for,
}
use svforb.Connection.Rules.Exclusivity.{visibility_where-eq-access, assert_can_claim_iff}
use svforb.Connection.Rules.Sweep.{should_auto_release_mono}
use svforb.Connection.Rules.Transitions.{Moves, here, next}

-- Reserved for organisation 7, and the same listing after the charity has declined it.
abbrev reserved : ExclusivityView
reserved = record { exclusive_to_org_id = some 7; released_at = none; released_reason = none }

abbrev declined : ExclusivityView
declined = record {
  exclusive_to_org_id = some 7;
  released_at = some 100;
  released_reason = some ListingReleaseReason.charity_declined;
}

guard_tests :
    (assert_can_claim reserved (some 8) ≡ err (conflict "NOT_EXCLUSIVE_HOLDER"))
    × (assert_can_claim reserved (some 7) ≡ ok tt)
    × (assert_can_claim declined (some 7) ≡ err (conflict "DECLINED_BY_VIEWER"))
    × (assert_can_claim declined (some 8) ≡ ok tt)
unfolding assert_can_claim
guard_tests = (refl, refl, refl, refl)

rule_tests :
    (assert_transition ConnectionStatus.declined ConnectionStatus.active
      ≡ err (conflict "INVALID_TRANSITION"))
    × (is_collecting ConnectionStatus.paused ≡ false)
    × (assert_distinct_sites 3 4 ≡ ok tt)
    × (release_reason_for ReleaseTrigger.partial_remainder ≡ ListingReleaseReason.partial_remainder)
unfolding assert_transition is_collecting assert_distinct_sites release_reason_for
rule_tests = (refl, refl, refl, refl)

visibility_where-eq-access_example :
    any (meets reserved) (visibility_where (some 8)) ≡ can_access_listing reserved (some 8)
visibility_where-eq-access_example = visibility_where-eq-access reserved (some 8)

assert_can_claim_iff_example : (assert_can_claim declined (some 7) ≡ ok tt) ↔ (
    (can_access_listing declined (some 7) ≡ true) × (declined_by_viewer declined (some 7) ≡ false))
assert_can_claim_iff_example = assert_can_claim_iff declined (some 7)

-- A day whose window is from 16:00 to 18:00, published in time, with the deadline at 15:30.
abbrev day : SweepDay
day = record {
  outcome = published;
  cutoff_at = 930;
  window_start_at = 960;
  window_end_at = 1080;
  published_at = some 800;
}

should_auto_release_mono_example : should_auto_release day 2000 ≡ true
unfolding should_auto_release
should_auto_release_mono_example = should_auto_release_mono day 940 2000 (omega arith) refl

paused_again : Moves ConnectionStatus.pending ConnectionStatus.paused
unfolding can_transition
paused_again = next {t = ConnectionStatus.active} (next here refl) refl

abbrev counts : ReliabilityCounts
counts = record { collected = 5; released = 2; missed = 1 }
