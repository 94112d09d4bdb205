-- ===== src/Connection/Rules.antt =====
-- src/modules/connections/connection.rules.ts: the decisions of the Connections feature. Instants
-- are compared as numbers, `null` is `none`.
pub mod Transitions
pub mod Exclusivity
pub mod Sweep
pub mod Reliability
mod Tests
use svforb.Common.{
  ℕ, ◌+◌, ◌*◌, ◌/◌, String, Bool, true, false, not, ◌&&◌, ◌||◌, Option, none, some, List, [], ◌∷◌,
  ◌==◌, ltb, leb, is_none, is_some, opt_eq, any, if◌then◌else◌, Result, err, ok, conflict,
  bad_request, throw_if,
}
use svforb.Prisma.{
  ConnectionStatus, ConnectionDayOutcome, published, missed, ListingStatus, ListingReleaseReason,
  connection_status_eq, outcome_eq, listing_status_eq,
}

-- ALLOWED_TRANSITIONS
abbrev pub allowed_transitions : ConnectionStatus → List ConnectionStatus
allowed_transitions ConnectionStatus.pending =
    ConnectionStatus.active ∷ ConnectionStatus.declined ∷ ConnectionStatus.expired
    ∷ ConnectionStatus.ended ∷ []
allowed_transitions ConnectionStatus.active = ConnectionStatus.paused ∷ ConnectionStatus.ended ∷ []
allowed_transitions ConnectionStatus.paused = ConnectionStatus.active ∷ ConnectionStatus.ended ∷ []
allowed_transitions ConnectionStatus.declined = []
allowed_transitions ConnectionStatus.expired = []
allowed_transitions ConnectionStatus.ended = []

-- TERMINAL_STATUSES and LIVE_STATUSES
abbrev pub terminal_statuses : List ConnectionStatus
terminal_statuses =
    ConnectionStatus.declined ∷ ConnectionStatus.expired ∷ ConnectionStatus.ended ∷ []

abbrev pub live_statuses : List ConnectionStatus
live_statuses = ConnectionStatus.pending ∷ ConnectionStatus.active ∷ ConnectionStatus.paused ∷ []

-- `statuses.includes(s)`
abbrev pub has_status : List ConnectionStatus → ConnectionStatus → Bool
has_status l s = any (λ x. connection_status_eq x s) l

unfoldable pub can_transition : ConnectionStatus → ConnectionStatus → Bool
can_transition from to = has_status (allowed_transitions from) to

unfoldable pub assert_transition : ConnectionStatus → ConnectionStatus → Result (Unit {0})
unfolding can_transition
assert_transition from to = throw_if (not (can_transition from to)) (conflict "INVALID_TRANSITION")

pub is_collecting : ConnectionStatus → Bool
is_collecting status = connection_status_eq status ConnectionStatus.active

-- interface ExclusivityView
pub record ExclusivityView : Type 0 where
  pub exclusive_to_org_id : Option ℕ
  pub released_at : Option ℕ
  pub released_reason : Option ListingReleaseReason

abbrev is_charity_declined : Option ListingReleaseReason → Bool
is_charity_declined (some ListingReleaseReason.charity_declined) = true
is_charity_declined _ = false

-- `viewerOrgId != null && a === viewerOrgId`
abbrev pub same_org : Option ℕ → Option ℕ → Bool
same_org a none = false
same_org a (some viewer) = opt_eq a viewer

pub declined_by_viewer : ExclusivityView → Option ℕ → Bool
declined_by_viewer listing viewer =
    same_org listing.exclusive_to_org_id viewer
    && is_some listing.released_at
    && is_charity_declined listing.released_reason

pub is_exclusive : ExclusivityView → Bool
is_exclusive listing = is_some listing.exclusive_to_org_id && is_none listing.released_at

pub can_access_listing : ExclusivityView → Option ℕ → Bool
unfolding is_exclusive
can_access_listing listing viewer =
    if not (is_exclusive listing) then true else same_org listing.exclusive_to_org_id viewer

unfoldable pub assert_can_claim : ExclusivityView → Option ℕ → Result (Unit {0})
unfolding declined_by_viewer can_access_listing
assert_can_claim listing viewer =
    if declined_by_viewer listing viewer
    then err (conflict "DECLINED_BY_VIEWER")
    else if can_access_listing listing viewer
    then ok tt
    else err (conflict "NOT_EXCLUSIVE_HOLDER")

-- A condition of a Prisma `where` on a listing's exclusivity columns.
pub data VisibilityCondition : Type 0 where
  exclusive_to_org_null released_at_set : VisibilityCondition
  exclusive_to_org : ℕ → VisibilityCondition

-- The `OR` list that `visibilityWhere` builds.
pub visibility_where : Option ℕ → List VisibilityCondition
visibility_where none = exclusive_to_org_null ∷ released_at_set ∷ []
visibility_where (some viewer) =
    exclusive_to_org_null ∷ released_at_set ∷ exclusive_to_org viewer ∷ []

-- What a row must be to meet a condition.
abbrev pub meets : ExclusivityView → VisibilityCondition → Bool
meets l exclusive_to_org_null = is_none l.exclusive_to_org_id
meets l released_at_set = is_some l.released_at
meets l (exclusive_to_org org) = opt_eq l.exclusive_to_org_id org

-- type ReleaseTrigger and releaseReasonFor
pub data ReleaseTrigger : Type 0 where
  charity_declined business_released auto_released partial_remainder : ReleaseTrigger

unfoldable pub release_reason_for : ReleaseTrigger → ListingReleaseReason
release_reason_for ReleaseTrigger.charity_declined = ListingReleaseReason.charity_declined
release_reason_for ReleaseTrigger.business_released = ListingReleaseReason.business_released
release_reason_for ReleaseTrigger.auto_released = ListingReleaseReason.auto_released
release_reason_for ReleaseTrigger.partial_remainder = ListingReleaseReason.partial_remainder

-- The day that the two sweep tests read.
pub record SweepDay : Type 0 where
  pub outcome : ConnectionDayOutcome
  pub cutoff_at : ℕ
  pub window_start_at : ℕ
  pub window_end_at : ℕ
  pub published_at : Option ℕ

-- `day.publishedAt && day.publishedAt >= day.cutoffAt`
abbrev pub published_late : SweepDay → Bool
published_late day = elim (day.published_at) [ none ↦ false | some t ↦ leb day.cutoff_at t ]

unfoldable pub should_auto_release : SweepDay → ℕ → Bool
should_auto_release day now =
    if not (outcome_eq day.outcome published)
    then false
    else if leb day.window_end_at now
    then true
    else if ltb now day.cutoff_at
    then false
    else if published_late day
    then false
    else true

pub should_escalate_to_business : SweepDay → ℕ → Bool
should_escalate_to_business day now =
    if not (outcome_eq day.outcome published)
    then false
    else if ltb now day.cutoff_at || leb day.window_start_at now
    then false
    else if published_late day
    then false
    else true

abbrev has_listing_status : Option ListingStatus → ListingStatus → Bool
has_listing_status none t = false
has_listing_status (some s) t = listing_status_eq s t

unfoldable pub listing_can_be_released : Option ListingStatus → Bool
listing_can_be_released status =
    has_listing_status status ListingStatus.active
    || has_listing_status status ListingStatus.partial

pub listing_is_awaiting_collection : Option ListingStatus → Bool
listing_is_awaiting_collection status = has_listing_status status ListingStatus.claimed

unfoldable pub can_mark_connection_day_collected : Option ListingStatus → Bool
can_mark_connection_day_collected status = has_listing_status status ListingStatus.claimed

pub data PublishedListingSweepAction : Type 0 where
  try_release await_collection close_missed : PublishedListingSweepAction

unfoldable pub published_listing_sweep_action : Option ListingStatus → PublishedListingSweepAction
unfolding listing_can_be_released listing_is_awaiting_collection
published_listing_sweep_action status =
    if listing_can_be_released status
    then try_release
    else if listing_is_awaiting_collection status
    then await_collection
    else close_missed

abbrev is_close_missed : PublishedListingSweepAction → Bool
is_close_missed close_missed = true
is_close_missed _ = false

unfoldable pub day_outcome_when_listing_closed : Option ListingStatus → Option ConnectionDayOutcome
unfolding published_listing_sweep_action
day_outcome_when_listing_closed status =
    if is_close_missed (published_listing_sweep_action status) then some missed else none

pub record ReliabilityCounts : Type 0 where
  pub collected : ℕ
  pub released : ℕ
  pub missed : ℕ

-- `percent` is in tenths of a percent.
pub record ReliabilityRow : Type 0 where
  pub offered : ℕ
  pub collected : ℕ
  pub declined : ℕ
  pub missed : ℕ
  pub percent : Option ℕ

-- `Math.round(x)` of a quotient of naturals, halves up.
abbrev pub round_div : ℕ → ℕ → ℕ
round_div a b = (2 * a + b) / (2 * b)

pub reliability_from : ReliabilityCounts → ReliabilityRow
reliability_from counts =
    let total = counts.collected + counts.released + counts.missed in
    record {
      offered = total;
      collected = counts.collected;
      declined = counts.released;
      missed = counts.missed;
      percent = if total == 0 then none else some (round_div (counts.collected * 1000) total);
    }

pub assert_distinct_sites : ℕ → ℕ → Result (Unit {0})
assert_distinct_sites donor receiver = throw_if (donor == receiver) (bad_request "SELF_CONNECTION")
