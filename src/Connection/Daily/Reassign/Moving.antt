-- ===== src/Connection/Daily/Reassign/Moving.antt =====
-- connection.daily.service.ts: what `reassignToConnection` makes of the listing.
use svforb.Common.{
  ℕ, ◌≡◌, ◌≢◌, ◌↔◌, ◌<◌, ◌≤◌, refl, some, none, inl, inr, ok, arith, Option-cases, Result-cases,
}
use svforb.Common.Table.{find, lookup-modify_self}
use svforb.Prisma.{ListingStatus, ConnectionStatus, published}
use svforb.Store.{FoodListing, Connection, ConnectionDay, Db}
use svforb.Connection.Rules.{assert_can_claim}
use svforb.Connection.Schedule.Clock.{Text}
use svforb.Connection.Schedule.Calendar.{Intl, resolve_day, local_date_at, resolve_donor_timezone}
use svforb.Claims.{Caller, exclusivity}
use svforb.Connection.Daily.{require_day, assert_donor_staff}
use svforb.Connection.Daily.Reassign.{move_listing, write_move, reassign_to_connection}

-- What a successful move has read, and the listing that it leaves.
pub record Moved (intl : Intl) (now : ℕ) (from_id to_connection : ℕ) (db db' : Db) : Type 0 where
  pub from : ConnectionDay
  pub listing : ℕ
  pub l : FoodListing
  pub target : Connection
  pub zone : Text
  pub found_day : find from_id db.days ≡ some from
  pub was_published : from.outcome ≡ published
  pub linked : from.listing_id ≡ some listing
  pub not_same : from.connection_id ≢ to_connection
  pub found : find listing db.listings ≡ some l
  pub was_active : l.status ≡ ListingStatus.active
  pub was_reserved : l.released_at ≡ none
  pub found_target : find to_connection db.connections ≡ some target
  pub target_active : target.status ≡ ConnectionStatus.active
  pub in_time :
      now < (resolve_day intl zone target.schedule (local_date_at intl zone now)).window_end_at
  pub written :
      find listing db'.listings
      ≡ some (
          move_listing to_connection target
            (resolve_day intl zone target.schedule (local_date_at intl zone now))
            l)

require_day-find :
    (id : ℕ) (db : Db) {day : ConnectionDay} {connection : Connection}
    → require_day id db ≡ ok (day, connection)
    → find id db.days ≡ some day
unfolding require_day
require_day-find id db {day} {connection} e = elim (Option-cases (find id db.days)) [
  | inl missing ↦ absurd (ground arith)
  | inr (d, found) ↦ elim (Option-cases (find d.connection_id db.connections)) [
    | inl missing ↦ absurd (ground arith)
    | inr (c, known) ↦ ground arith
  ]
]

reassign-Moved :
    (intl : Intl) (now : ℕ) (caller : Caller) (from_id to_connection : ℕ) (db db' : Db)
    → reassign_to_connection intl now caller from_id to_connection db ≡ ok db'
    → Moved intl now from_id to_connection db db'
unfolding reassign_to_connection write_move
reassign-Moved intl now caller from_id to_connection db db' h =
    elim (Result-cases (require_day from_id db)) [
      | inl (x, e) ↦ absurd (ground arith)
      | inr ((from, connection), ed) ↦
          elim (Result-cases (assert_donor_staff caller connection.donor_site_id db)) [
            | inl (x, e) ↦ absurd (ground arith)
            | inr (u, es) ↦ elim (Option-cases from.listing_id) [
              | inl e ↦ absurd (ground arith)
              | inr (listing, linked) ↦ elim (Option-cases (find listing db.listings)) [
                | inl e ↦ absurd (ground arith)
                | inr (l, el) ↦ elim (Option-cases (find to_connection db.connections)) [
                  | inl e ↦ absurd (ground arith)
                  | inr (target, et) ↦ elim (Option-cases (find target.donor_site_id db.sites)) [
                    | inl e ↦ absurd (ground arith)
                    | inr (site, esite) ↦
                        elim (Option-cases (resolve_donor_timezone site.timezone)) [
                          | inl e ↦ absurd (ground arith)
                          | inr (zone, ez) ↦
                              let r =
                                resolve_day intl zone target.schedule
                                  (local_date_at intl zone now) in
                              let there =
                                lookup-modify_self listing (move_listing to_connection target r)
                                  db.listings.rows el in
                              record {
                                from = from;
                                found_day = require_day-find from_id db ed;
                                was_published = ground arith;
                                linked = linked;
                                not_same = ground arith;
                                listing = listing;
                                l = l;
                                target = target;
                                zone = zone;
                                found = el;
                                was_active = ground arith;
                                was_reserved = ground arith;
                                found_target = et;
                                target_active = ground arith;
                                in_time = ground arith;
                                written = ground (arith, there);
                              }
                        ]
                  ]
                ]
              ]
            ]
          ]
    ]

-- A successful move of a day to a connection is the move of that day's listing: the day was
-- published and of another connection, and the listing was active and had not been released. The
-- other connection is active. The listing has the weight it had and can then be accessed by that
-- connection's charity alone, its pickup window is yet to end, and it is not best before an earlier
-- time.
pub reassign-reserved :
    (intl : Intl) (now : ℕ) (caller : Caller) (from_id to_connection : ℕ) (db db' : Db)
    → reassign_to_connection intl now caller from_id to_connection db ≡ ok db'
    → (from : ConnectionDay) × (listing : ℕ) × (l : FoodListing) × (l' : FoodListing)
      × (target : Connection) × (by : ℕ) × (find from_id db.days ≡ some from)
      × (from.outcome ≡ published)
      × (from.connection_id ≢ to_connection)
      × (from.listing_id ≡ some listing)
      × (find listing db.listings ≡ some l)
      × (l.status ≡ ListingStatus.active)
      × (l.released_at ≡ none)
      × (find to_connection db.connections ≡ some target)
      × (target.status ≡ ConnectionStatus.active)
      × (find listing db'.listings ≡ some l')
      × (l'.remaining_qty ≡ l.remaining_qty)
      × ((org : ℕ)
          → (assert_can_claim (exclusivity l') (some org) ≡ ok tt) ↔ (org ≡ target.receiver_org_id))
      × (l'.pickup_by_time ≡ some by)
      × (now < by)
      × (by ≤ l'.best_before)
unfolding assert_can_claim
reassign-reserved intl now caller from_id to_connection db db' h =
    let m = reassign-Moved intl now caller from_id to_connection db db' h in
    let r = resolve_day intl m.zone m.target.schedule (local_date_at intl m.zone now) in
    (
      m.from,
      m.listing,
      m.l,
      move_listing to_connection m.target r m.l,
      m.target,
      r.window_end_at,
      m.found_day,
      m.was_published,
      m.not_same,
      m.linked,
      m.found,
      m.was_active,
      m.was_reserved,
      m.found_target,
      m.target_active,
      m.written,
      refl,
      λ org. ground arith,
      refl,
      m.in_time,
      ground arith,
    )
