-- ===== src/Connection/Daily/Surplus.antt =====
-- connection.daily.service.ts: what `addDailySurplus` publishes.
use svforb.Common.{
  ℕ, ◌≡◌, ◌↔◌, refl, true, some, List, ok, arith, inl, inr, Option-cases, Result-cases,
}
use svforb.Common.Int.{ℤ, pos, ◌<ℤ◌}
use svforb.Common.Table.{find, Below, lookup-append_new, lookup-modify_self}
use svforb.Prisma.{published}
use svforb.Store.{FoodListing, ConnectionDay, Connection, Site, Db}
use svforb.Connection.Rules.{assert_can_claim}
use svforb.Claims.{Caller, exclusivity}
use svforb.Connection.Daily.{
  require_day, assert_donor_staff, is_unanswered, total_kg, reserved_listing, publish_day,
  write_surplus, add_daily_surplus,
}

-- What a successful call has read.
pub record Answered (now : ℕ) (id : ℕ) (items : List ℤ) (db : Db) (out : ℕ × Db) : Type 0 where
  pub day : ConnectionDay
  pub connection : Connection
  pub site : Site
  pub found : find id db.days ≡ some day
  pub found_connection : find day.connection_id db.connections ≡ some connection
  pub unanswered : is_unanswered day.outcome ≡ true
  pub positive : pos 0 <ℤ total_kg items
  pub written : write_surplus now id day connection site items db ≡ out

pub add_daily_surplus-Answered :
    (now : ℕ) (caller : Caller) (id : ℕ) (items : List ℤ) (db : Db) (out : ℕ × Db)
    → add_daily_surplus now caller id items db ≡ ok out
    → Answered now id items db out
unfolding add_daily_surplus require_day
add_daily_surplus-Answered now caller id items db out h = elim (Option-cases (find id db.days)) [
  | inl e ↦ absurd (ground arith)
  | inr (day, found) ↦ elim (Option-cases (find day.connection_id db.connections)) [
    | inl e ↦ absurd (ground arith)
    | inr (connection, found_connection) ↦
        elim (Option-cases (find connection.donor_site_id db.sites)) [
          | inl e ↦ absurd (ground arith)
          | inr (site, found_site) ↦
              elim (Result-cases (assert_donor_staff caller connection.donor_site_id db)) [
                | inl (x, e) ↦ absurd (ground arith)
                | inr (u, e) ↦ record {
                  day = day;
                  connection = connection;
                  site = site;
                  found = found;
                  found_connection = found_connection;
                  unanswered = ground arith;
                  positive = ground arith;
                  written = ground arith;
                }
              ]
        ]
  ]
]

-- When the business adds today's surplus, and listings have ids below the next one, a listing of
-- a positive weight is there, of the total weight entered; the day, which was not answered
-- before, is published with it; and the claim guard lets the connection's charity claim it, and
-- no other organisation.
pub add_daily_surplus-reserved :
    (now : ℕ) (caller : Caller) (id : ℕ) (items : List ℤ) (db : Db) (out : ℕ × Db)
    → Below db.listings.next db.listings.rows
    → add_daily_surplus now caller id items db ≡ ok out
    → (day : ConnectionDay) × (connection : Connection) × (l : FoodListing) × (day' : ConnectionDay)
      × (find id db.days ≡ some day)
      × (is_unanswered day.outcome ≡ true)
      × (find day.connection_id db.connections ≡ some connection)
      × (find out.0 out.1.listings ≡ some l)
      × (pos 0 <ℤ l.remaining_qty)
      × (l.remaining_qty ≡ total_kg items)
      × (find id out.1.days ≡ some day')
      × (day'.outcome ≡ published)
      × (day'.listing_id ≡ some out.0)
      × ((org : ℕ)
          → (assert_can_claim (exclusivity l) (some org) ≡ ok tt)
            ↔ (org ≡ connection.receiver_org_id))
unfolding write_surplus assert_can_claim
add_daily_surplus-reserved now caller id items db out fresh h =
    let a = add_daily_surplus-Answered now caller id items db out h in
    let new = reserved_listing a.day a.connection a.site (total_kg items) in
    rw (← a.written) (
      a.day,
      a.connection,
      new,
      publish_day now db.listings.next a.day,
      a.found,
      a.unanswered,
      a.found_connection,
      lookup-append_new db.listings.next new db.listings.rows fresh,
      a.positive,
      refl,
      lookup-modify_self id (publish_day now db.listings.next) db.days.rows a.found,
      refl,
      refl,
      λ org. ground arith,
    )
