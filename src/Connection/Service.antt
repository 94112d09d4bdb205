-- ===== src/Connection/Service.antt =====
-- connection.service.ts: the setting up of a Connection and its life, and the expiry of
-- invitations in connection.worker.ts. Time zone data, and whether a push could be queued, are
-- parameters. Texts for people, the reading pages and the notifications are not modelled; of the
-- columns, those that decisions depend on.
pub mod Schedules
pub mod Effect
pub mod Requests
mod Tests
use svforb.Common.{
  ℕ, ◌+◌, ◌*◌, Bool, true, false, not, ◌&&◌, ◌||◌, Option, none, some, List, [], ◌∷◌, ◌==◌, leb,
  ltb, any, opt_eq, get_or, min, if◌then◌else◌, Result, ok, err, ◌>>=◌, ◌>>◌, throw_if, or_throw,
  bad_request, forbidden, not_found, conflict,
}
use svforb.Common.Table.{Table, find, update, update_many, create}
use svforb.Prisma.{
  ConnectionStatus, OrgType, charity_single, charity_multi, org_type_eq, connection_status_eq,
}
use svforb.Store.{Connection, Organisation, Site, SiteAccess, ConnectionDay, Db}
use svforb.Claims.{Caller}
use svforb.Enterprise.Permissions.{assert_not_view_only}
use svforb.Connection.Rules.{assert_transition, assert_distinct_sites, has_status, live_statuses}
use svforb.Connection.Schedule.Clock.{
  Text, ScheduleInput, PickupWindow, parse_local_time, validate_schedule, schedules_overlap,
  prompt_lead_minutes, charity_confirm_minutes,
}
use svforb.Connection.Schedule.Calendar.{
  Intl, ResolvedDay, assert_valid_timezone, resolve_donor_timezone, due_days, ms_per_day,
}
use svforb.Connection.Daily.{has_staff_access}
use svforb.Connection.Daily.Sweeps.{open_day, daily_prompt_once}

-- class CreateConnectionDto
pub record CreateConnectionDto : Type 0 where
  pub donor_site_id : ℕ
  pub receiver_site_id : ℕ
  pub days_of_week : List ℕ
  pub window_start : Text
  pub window_end : Text
  pub lead_time_minutes : Option ℕ
  pub cutoff_minutes : Option ℕ

-- class UpdateConnectionDto
pub record UpdateConnectionDto : Type 0 where
  pub days_of_week : Option (List ℕ)
  pub window_start : Option Text
  pub window_end : Option Text
  pub lead_time_minutes : Option ℕ
  pub cutoff_minutes : Option ℕ

pub assert_site_member : Caller → ℕ → Db → Result (Unit {0})
assert_site_member caller site db = do
  s ← or_throw (find site db.sites) (not_found "Site not found")
  throw_if (not (opt_eq caller.org_id s.organisation_id))
      (forbidden "That site belongs to another organisation.")

pub assert_can_manage_site : Caller → ℕ → Db → Result (Unit {0})
assert_can_manage_site caller site db = do
  assert_not_view_only caller.enterprise_role
  throw_if
      (not (caller.is_super_admin || caller.is_org_admin)
        && not (has_staff_access caller.user_id site db.site_access))
      (forbidden "You do not have permission to manage regular collections for this site.")

pub assert_site_admin : Caller → ℕ → Db → Result (Unit {0})
unfolding assert_site_member assert_can_manage_site
assert_site_admin caller site db =
    assert_site_member caller site db >> assert_can_manage_site caller site db

pub assert_charity_side : Caller → Connection → Db → Result (Unit {0})
unfolding assert_can_manage_site
assert_charity_side caller c db = do
  throw_if (not (opt_eq caller.org_id c.receiver_org_id))
      (forbidden "This invitation belongs to another organisation.")
  assert_can_manage_site caller c.receiver_site_id db

pub assert_either_side : Caller → Connection → Result (Unit {0})
assert_either_side caller c =
    throw_if (not (opt_eq caller.org_id c.donor_org_id || opt_eq caller.org_id c.receiver_org_id))
      (forbidden "This connection belongs to another organisation.")

-- `[...days].sort((a, b) => a - b)`
pub insert : ℕ → List ℕ → List ℕ
insert d [] = d ∷ []
insert d (x ∷ xs) = let rest = insert d xs in if leb d x then d ∷ x ∷ xs else x ∷ rest

pub sort : List ℕ → List ℕ
unfolding insert
sort [] = []
sort (d ∷ ds) = insert d (sort ds)

-- The parsed schedule of a new Connection, before its days are sorted.
abbrev pub requested_schedule : CreateConnectionDto → ℕ → ℕ → ScheduleInput
requested_schedule dto start end = record {
  days_of_week = dto.days_of_week;
  window_start_minutes = start;
  window_end_minutes = end;
  lead_time_minutes = get_or dto.lead_time_minutes prompt_lead_minutes;
  cutoff_minutes = min (get_or dto.cutoff_minutes charity_confirm_minutes) charity_confirm_minutes;
}

abbrev pub pickup_window : ScheduleInput → PickupWindow
pickup_window s = record {
  days_of_week = s.days_of_week;
  window_start_minutes = s.window_start_minutes;
  window_end_minutes = s.window_end_minutes;
}

abbrev pub is_live : ConnectionStatus → Bool
is_live s = has_status live_statuses s

-- A live Connection of the two sites whose window overlaps the schedule.
abbrev pub clashes : ℕ → ℕ → ScheduleInput → Connection → Bool
clashes donor receiver s c =
    c.donor_site_id == donor
    && c.receiver_site_id == receiver
    && is_live c.status
    && schedules_overlap (pickup_window s) (pickup_window c.schedule)

pub has_clash : ℕ → ℕ → ScheduleInput → List (ℕ × Connection) → Bool
has_clash donor receiver s rows = any (λ row. clashes donor receiver s row.1) rows

abbrev pub is_charity : OrgType → Bool
is_charity t = any (λ x. org_type_eq x t) (charity_single ∷ charity_multi ∷ [])

-- `!timezone` on null and on the empty text
abbrev pub zone_or_none : Option Text → Option Text
zone_or_none none = none
zone_or_none (some []) = none
zone_or_none (some (c ∷ zone)) = some (c ∷ zone)

abbrev pub invitation_ttl : ℕ
invitation_ttl = 7 * ms_per_day

abbrev pub sort_days : ScheduleInput → ScheduleInput
unfolding sort
sort_days s = record s { days_of_week = sort s.days_of_week }

abbrev pub invitation : ℕ → CreateConnectionDto → Site → Site → ScheduleInput → Connection
invitation now dto donor receiver s = record {
  donor_site_id = dto.donor_site_id;
  donor_org_id = donor.organisation_id;
  receiver_site_id = dto.receiver_site_id;
  receiver_org_id = receiver.organisation_id;
  status = ConnectionStatus.pending;
  schedule = sort_days s;
  invitation_expires_at = some (now + invitation_ttl);
}

abbrev add_connection : Connection → Db → ℕ × Db
add_connection c db =
    let made = create c db.connections in (made.0, record db { connections = made.1 })

abbrev pub with_status : ℕ → ConnectionStatus → Db → Db
with_status id status db = record db {
  connections = update id (λ c. record c { status = status }) db.connections;
}

module _ (intl : Intl) where
  pub invite : ℕ → Caller → CreateConnectionDto → Db → Result (ℕ × Db)
  unfolding assert_site_admin has_clash
  invite now caller dto db = do
    assert_distinct_sites dto.donor_site_id dto.receiver_site_id
    assert_site_admin caller dto.donor_site_id db
    donor ← or_throw (find dto.donor_site_id db.sites) (not_found "Site not found")
    zone ← or_throw (zone_or_none donor.timezone) (bad_request "SITE_TIMEZONE_MISSING")
    assert_valid_timezone intl zone
    receiver ← or_throw (find dto.receiver_site_id db.sites) (not_found "Charity site not found")
    org ←
        or_throw (find receiver.organisation_id db.organisations)
          (not_found "Charity organisation not found")
    throw_if (not (is_charity org.org_type)) (bad_request "NOT_A_CHARITY")
    start ← parse_local_time dto.window_start
    end ← parse_local_time dto.window_end
    validate_schedule (requested_schedule dto start end)
    throw_if
        (has_clash dto.donor_site_id dto.receiver_site_id (requested_schedule dto start end)
          db.connections.rows)
        (conflict "CONNECTION_EXISTS")
    ok (add_connection (invitation now dto donor receiver (requested_schedule dto start end)) db)

  -- `ensureOpenToday`, on a Connection as it is read
  pub ensure_open_today : ℕ → Bool → ℕ → Connection → Db → Db
  ensure_open_today now sent id c db =
      if not (connection_status_eq c.status ConnectionStatus.active)
      then db
      else (elim (find c.donor_site_id db.sites) [
        | none ↦ db
        | some site ↦ elim (resolve_donor_timezone site.timezone) [
          | none ↦ db
          | some zone ↦ elim (due_days intl zone c.schedule now) [
            | [] ↦ db
            | r ∷ rs ↦
                let opened = open_day id r db.days in
                record db { days = daily_prompt_once now sent opened.0 opened.1 }
          ]
        ]
      ])

  -- `getOne`, which opens today's row of an active Connection
  pub get_one : ℕ → Bool → Caller → ℕ → Db → Result Db
  unfolding assert_either_side ensure_open_today
  get_one now sent caller id db = do
    c ← or_throw (find id db.connections) (not_found "Connection not found")
    assert_either_side caller c
    ok (ensure_open_today now sent id c db)

  pub accept : ℕ → Bool → Caller → ℕ → Db → Result Db
  unfolding assert_charity_side ensure_open_today get_one
  accept now sent caller id db = do
    c ← or_throw (find id db.connections) (not_found "Connection not found")
    assert_charity_side caller c db
    assert_transition c.status ConnectionStatus.active
    let accepted = record c { status = ConnectionStatus.active }
    let written = with_status id ConnectionStatus.active db
    get_one now sent caller id (ensure_open_today now sent id accepted written)

pub decline : Caller → ℕ → Db → Result Db
unfolding assert_charity_side
decline caller id db = do
  c ← or_throw (find id db.connections) (not_found "Connection not found")
  assert_charity_side caller c db
  assert_transition c.status ConnectionStatus.declined
  ok (with_status id ConnectionStatus.declined db)

-- `setStatus`, for `pause`, `resume` and `end`
pub set_status : Caller → ℕ → ConnectionStatus → Db → Result Db
unfolding assert_either_side
set_status caller id status db = do
  assert_not_view_only caller.enterprise_role
  c ← or_throw (find id db.connections) (not_found "Connection not found")
  assert_either_side caller c
  assert_transition c.status status
  ok (with_status id status db)

-- `text ? parseLocalTime(text) : old`
abbrev pub parse_or : Option Text → ℕ → Result ℕ
parse_or none old = ok old
parse_or (some []) old = ok old
parse_or (some (c ∷ text)) old = parse_local_time (c ∷ text)

abbrev pub updated_schedule : UpdateConnectionDto → ScheduleInput → ℕ → ℕ → ScheduleInput
updated_schedule dto old start end = record {
  days_of_week = get_or dto.days_of_week old.days_of_week;
  window_start_minutes = start;
  window_end_minutes = end;
  lead_time_minutes = get_or dto.lead_time_minutes old.lead_time_minutes;
  cutoff_minutes = min (get_or dto.cutoff_minutes old.cutoff_minutes) charity_confirm_minutes;
}

pub update_connection : Caller → ℕ → UpdateConnectionDto → Db → Result Db
unfolding assert_site_admin
update_connection caller id dto db = do
  c ← or_throw (find id db.connections) (not_found "Connection not found")
  assert_site_admin caller c.donor_site_id db
  throw_if (connection_status_eq c.status ConnectionStatus.ended)
      (conflict "This connection has ended and cannot be edited.")
  start ← parse_or dto.window_start c.schedule.window_start_minutes
  end ← parse_or dto.window_end c.schedule.window_end_minutes
  validate_schedule (updated_schedule dto c.schedule start end)
  ok (record db {
    connections =
        update id
          (λ r. record r { schedule = sort_days (updated_schedule dto c.schedule start end) })
          db.connections;
  })

-- `invitationExpiresAt < now`
abbrev pub is_expired : ℕ → Option ℕ → Bool
is_expired now none = false
is_expired now (some t) = ltb t now

-- `expireInvitations` of connection.worker.ts
pub expire_invitations : ℕ → Db → Db
expire_invitations now db = record db {
  connections =
      update_many
        (λ c.
          connection_status_eq c.status ConnectionStatus.pending
          && is_expired now c.invitation_expires_at)
        (λ c. record c { status = ConnectionStatus.expired }) db.connections;
}

pub set_site_timezone : Intl → Caller → ℕ → Text → Db → Result Db
unfolding assert_site_admin
set_site_timezone intl caller site zone db = do
  assert_site_admin caller site db
  assert_valid_timezone intl zone
  ok (record db { sites = update site (λ s. record s { timezone = some zone }) db.sites })
