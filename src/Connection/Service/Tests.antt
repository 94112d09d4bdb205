-- ===== src/Connection/Service/Tests.antt =====
-- connection.service.ts: runs at concrete inputs. Site 2 of business 1 gives to site 5 of charity 7.
use svforb.Common.{ℕ, ◌≡◌, ◌/◌, ◌%◌, refl, true, false, none, some, List, [], ◌∷◌, ok, arith}
use svforb.Common.Table.{Table, find}
use svforb.Prisma.{ConnectionStatus, charity_single, business_single}
use svforb.Store.{Connection, Db}
use svforb.Claims.{Caller}
use svforb.Connection.Schedule.Clock.{Text, ScheduleInput, validate_schedule, schedules_overlap}
use svforb.Connection.Schedule.Calendar.{Intl}
use svforb.Enterprise.Permissions.{assert_not_view_only}
use svforb.Connection.Service.{
  CreateConnectionDto, UpdateConnectionDto, update_connection, assert_site_admin, is_live, clashes,
  has_clash,
}
use svforb.Connection.Service.Requests.{
  Request, invite, accept, set_status, edit, expire, handle_all,
}
use svforb.Connection.Service.Requests.Moves.{Continues, handle_all-Continues}
use svforb.Connection.Service.Requests.Valid.{AllValid, handle_all-AllValid}
use svforb.Connection.Service.Requests.Apart.{Apart, NoClash-Apart, handle_all-Apart}
use svforb.Connection.Service.Requests.Windows.{NoClash, update_connection-clashes}

abbrev utc : Intl
utc = record {
  knows = λ zone. true;
  parts = λ zone t. record {
    day = t / 86400000;
    hour = t / 3600000 % 24;
    minute = t / 60000 % 60;
    second = t / 1000 % 60;
  };
}

abbrev schedule : List ℕ → ℕ → ℕ → ScheduleInput
schedule days start end = record {
  days_of_week = days;
  window_start_minutes = start;
  window_end_minutes = end;
  lead_time_minutes = 240;
  cutoff_minutes = 30;
}

abbrev between : ScheduleInput → ConnectionStatus → Connection
between s status = record {
  donor_site_id = 2;
  donor_org_id = 1;
  receiver_site_id = 5;
  receiver_org_id = 7;
  status = status;
  schedule = s;
  invitation_expires_at = some 90;
}

abbrev mondays : Connection
mondays = between (schedule (1 ∷ []) 960 1080) ConnectionStatus.active

abbrev tuesdays : Connection
tuesdays = between (schedule (2 ∷ []) 960 1080) ConnectionStatus.pending

abbrev empty {ℓ} : {A : Type ℓ} → Table A
empty = record { next = 1; rows = [] }

abbrev town : Db
town = record {
  listings = empty;
  food_items = empty;
  claims = empty;
  pickups = empty;
  organisations = record {
    next = 8;
    rows =
        (1, record { org_type = business_single; rating_total = 0; rating_count = 0 })
        ∷ (7, record { org_type = charity_single; rating_total = 0; rating_count = 0 })
        ∷ [];
  };
  connections = record { next = 3; rows = (1, mondays) ∷ (2, tuesdays) ∷ [] };
  days = empty;
  sites = record {
    next = 6;
    rows =
        (2, record { organisation_id = 1; is_active = true; timezone = some (b'U' ∷ []) })
        ∷ (5, record { organisation_id = 7; is_active = true; timezone = none })
        ∷ [];
  };
  users = empty;
  site_access = [];
  supports = [];
  activities = [];
}

abbrev owner : Caller
owner = record {
  user_id = 10;
  org_id = some 1;
  org_type = some business_single;
  site_id = some 2;
  is_super_admin = true;
  is_org_admin = false;
  enterprise_role = none;
}

abbrev four_pm : Text
four_pm = b'1' ∷ b'6' ∷ b':' ∷ b'0' ∷ b'0' ∷ []

abbrev five_pm : Text
five_pm = b'1' ∷ b'7' ∷ b':' ∷ b'0' ∷ b'0' ∷ []

abbrev offer : List ℕ → CreateConnectionDto
offer days = record {
  donor_site_id = 2;
  receiver_site_id = 5;
  days_of_week = days;
  window_start = four_pm;
  window_end = five_pm;
  lead_time_minutes = none;
  cutoff_minutes = none;
}

abbrev to_mondays : UpdateConnectionDto
to_mondays = record {
  days_of_week = some (1 ∷ []);
  window_start = none;
  window_end = none;
  lead_time_minutes = none;
  cutoff_minutes = none;
}

-- The second invitation clashes with the first Connection and is refused.
abbrev requests : List Request
requests =
    invite 50 owner (offer (4 ∷ 3 ∷ []))
    ∷ invite 60 owner (offer (1 ∷ []))
    ∷ accept 70 true owner 2
    ∷ set_status owner 1 ConnectionStatus.paused
    ∷ expire 100
    ∷ set_status owner 1 ConnectionStatus.ended
    ∷ []

town-NoClash : NoClash town.connections.rows
unfolding has_clash schedules_overlap
town-NoClash = ((λ live. refl), ((λ live. refl), tt))

town-AllValid : AllValid town.connections.rows
unfolding validate_schedule
town-AllValid = (refl, (refl, tt))

town-Apart : Apart town.connections.rows
town-Apart = NoClash-Apart town.connections.rows town-AllValid town-NoClash

handle_all-Apart_example : Apart (handle_all utc requests town).connections.rows
handle_all-Apart_example = handle_all-Apart utc requests town refl town-AllValid town-Apart

handle_all-AllValid_example :
    AllValid (handle_all utc (edit owner 2 to_mondays ∷ requests) town).connections.rows
handle_all-AllValid_example =
    handle_all-AllValid utc (edit owner 2 to_mondays ∷ requests) town town-AllValid

handle_all-Continues_example : Continues 1 mondays (handle_all utc requests town).connections.rows
handle_all-Continues_example = handle_all-Continues utc requests town 1 mondays refl

update_connection-clashes_example :
    (db' : Db) × (c' : Connection) × (update_connection owner 2 to_mondays town ≡ ok db')
    × (find 2 db'.connections ≡ some c')
    × (find 1 db'.connections ≡ some mondays)
    × (is_live c'.status ≡ true)
    × (clashes c'.donor_site_id c'.receiver_site_id c'.schedule mondays ≡ true)
unfolding assert_site_admin assert_not_view_only schedules_overlap validate_schedule
update_connection-clashes_example =
    update_connection-clashes owner 2 1 to_mondays town 960 1080 {c = tuesdays} {other = mondays}
      (omega arith) refl refl refl refl refl refl refl refl
