-- ===== src/Connection/Daily/Release.antt =====
-- connection.daily.service.ts: what a release makes of the listing and of the day.
use svforb.Common.{
  ℕ, ◌≡◌, ◌≢◌, ◌↔◌, ◌≤◌, ◌<◌, true, some, ok, arith, inl, inr, Option-cases, Result-cases, get_or,
}
use svforb.Common.Table.{find, modify, lookup-modify_self}
use svforb.Prisma.{published}
use svforb.Store.{FoodListing, ConnectionDay, Db}
use svforb.Connection.Rules.{
  ReleaseTrigger, charity_declined, listing_can_be_released, release_reason_for, assert_can_claim,
}
use svforb.Claims.{exclusivity}
use svforb.Connection.Daily.{
  ReleaseDayDto, WindowPatch, release, release_day, release_listing, release_window,
  parse_release_window,
}

-- What a release that succeeds has read and written.
pub record Released (now : ℕ) (trigger : ReleaseTrigger) (dto : ReleaseDayDto) (id : ℕ)
    (day : ConnectionDay) (db db' : Db) : Type 0 where
  pub listing : ℕ
  pub l : FoodListing
  pub w : WindowPatch
  pub was_published : day.outcome ≡ published
  pub linked : day.listing_id ≡ some listing
  pub found : find listing db.listings ≡ some l
  pub is_open : listing_can_be_released (some l.status) ≡ true
  pub window : release_window now trigger dto l ≡ ok w
  pub written : find listing db'.listings ≡ some (release_listing now trigger w l)
  pub days_written : db'.days.rows ≡ modify id (release_day now) db.days.rows

pub release-Released :
    (now : ℕ) (trigger : ReleaseTrigger) (dto : ReleaseDayDto) (id : ℕ) (day : ConnectionDay)
    (db db' : Db)
    → release now trigger dto id day db ≡ ok db'
    → Released now trigger dto id day db db'
unfolding release
release-Released now trigger dto id day db db' h = elim (Option-cases day.listing_id) [
  | inl e ↦ absurd (ground arith)
  | inr (listing, linked) ↦ elim (Option-cases (find listing db.listings)) [
    | inl e ↦ absurd (ground arith)
    | inr (l, found) ↦ elim (Result-cases (release_window now trigger dto l)) [
      | inl (x, e) ↦ absurd (ground arith)
      | inr (w, window) ↦
          let there =
            lookup-modify_self listing (release_listing now trigger w) db.listings.rows found in
          record {
            listing = listing;
            l = l;
            w = w;
            was_published = ground arith;
            linked = linked;
            found = found;
            is_open = ground arith;
            window = window;
            written = ground (arith, there);
            days_written = ground arith;
          }
    ]
  ]
]

-- A listing that its charity declined is open to every organisation but that one.
pub charity_declined-guard :
    (now : ℕ) (dto : ReleaseDayDto) (id : ℕ) (day : ConnectionDay) (db db' : Db)
    → release now charity_declined dto id day db ≡ ok db'
    → (listing : ℕ) × (l : FoodListing) × (day.listing_id ≡ some listing)
      × (find listing db'.listings ≡ some l)
      × ((org : ℕ)
          → (assert_can_claim (exclusivity l) (some org) ≡ ok tt)
            ↔ (l.exclusive_to_org_id ≢ some org))
unfolding assert_can_claim release_reason_for
charity_declined-guard now dto id day db db' h =
    let r = release-Released now charity_declined dto id day db db' h in
    (
      r.listing,
      release_listing now charity_declined r.w r.l,
      r.linked,
      r.written,
      λ org. ground arith,
    )

-- A pickup window that a release accepts has a start before its end, an end that is yet to come
-- and a best-before time not before its end.
pub parse_release_window-ok :
    (now : ℕ) (dto : ReleaseDayDto) (w : WindowPatch) (by : ℕ)
    → parse_release_window now dto ≡ ok w
    → w.pickup_by_time ≡ some by
    → (now < by)
      × ((from : ℕ) × (w.pickup_from_time ≡ some from) × (from < by))
      × ((best : ℕ) × (w.best_before ≡ some best) × (by ≤ best))
unfolding parse_release_window
parse_release_window-ok now dto w by h e = (
  ground arith,
  (get_or w.pickup_from_time 0, ground arith, ground arith),
  (get_or w.best_before 0, ground arith, ground arith),
)
