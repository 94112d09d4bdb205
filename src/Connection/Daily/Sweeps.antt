-- ===== src/Connection/Daily/Sweeps.antt =====
-- connection.daily.service.ts: the sweeps that the workers run. Time zone data, and whether a push
-- could be queued (`sent`, by the id of the day), are parameters. The notification of an
-- escalation is taken to succeed.
use svforb.Common.{
  ℕ, ◌+◌, ◌*◌, Bool, true, false, not, ◌&&◌, ◌||◌, Option, none, some, List, [], ◌∷◌, ◌==◌, leb,
  is_some, is_none, if◌then◌else◌, Result, ok, err, keep,
}
use svforb.Common.Table.{Table, find, update, create}
use svforb.Prisma.{
  ListingStatus, ConnectionStatus, ConnectionDayOutcome, prompted, published, no_response,
  outcome_eq, connection_status_eq,
}
use svforb.Store.{FoodListing, ConnectionDay, Connection, Db}
use svforb.Connection.Rules.{
  SweepDay, should_auto_release, should_escalate_to_business, auto_released, try_release,
  await_collection, close_missed, published_listing_sweep_action, day_outcome_when_listing_closed,
}
use svforb.Connection.Schedule.Clock.{Text, list_by_minutes}
use svforb.Connection.Schedule.Calendar.{
  Intl, ResolvedDay, ms_per_minute, resolve_day, is_business_list_by_due, resolve_donor_timezone,
  due_days,
}
use svforb.Connection.Daily.{release, no_dto}

abbrev pub same_window : ConnectionDay → ResolvedDay → Bool
same_window d r =
    d.window_start_at == r.window_start_at
    && d.window_end_at == r.window_end_at
    && d.cutoff_at == r.cutoff_at

abbrev pub set_window : ResolvedDay → ConnectionDay → ConnectionDay
set_window r d = record d {
  window_start_at = r.window_start_at;
  window_end_at = r.window_end_at;
  cutoff_at = r.cutoff_at;
}

-- The day after `alignPromptedWindow`.
unfoldable pub aligned : ConnectionDay → ResolvedDay → ConnectionDay
aligned d r =
    if not (outcome_eq d.outcome prompted) || is_some d.listing_id
    then d
    else if same_window d r
    then d
    else set_window r d

unfoldable pub align_prompted_window :
    ℕ → ConnectionDay → ResolvedDay → Table ConnectionDay → Table ConnectionDay
align_prompted_window id d r t =
    if not (outcome_eq d.outcome prompted) || is_some d.listing_id
    then t
    else if same_window d r
    then t
    else update id (set_window r) t

-- `findUnique` by the key of the connection and the date
unfoldable pub find_day : ℕ → ℕ → List (ℕ × ConnectionDay) → Option (ℕ × ConnectionDay)
find_day connection date [] = none
find_day connection date (row ∷ rows) =
    if row.1.connection_id == connection && row.1.scheduled_date == date
    then some row
    else find_day connection date rows

abbrev pub new_day : ℕ → ResolvedDay → ConnectionDay
new_day connection r = record {
  connection_id = connection;
  scheduled_date = r.scheduled_date;
  window_start_at = r.window_start_at;
  window_end_at = r.window_end_at;
  cutoff_at = r.cutoff_at;
  outcome = prompted;
  prompted_at = none;
  published_at = none;
  responded_at = none;
  released_at = none;
  listing_id = none;
  collected_qty = none;
}

-- The id of the day and the table after `openDay`.
unfoldable pub open_day : ℕ → ResolvedDay → Table ConnectionDay → ℕ × Table ConnectionDay
open_day connection r t = elim (find_day connection r.scheduled_date t.rows) [
  | none ↦ create (new_day connection r) t
  | some row ↦ (row.0, align_prompted_window row.0 row.1 r t)
]

abbrev not_prompted_yet : ConnectionDay → Bool
not_prompted_yet d = is_none d.prompted_at && outcome_eq d.outcome prompted && is_none d.listing_id

-- `dailyPromptOnce`: the prompt is recorded if it could be queued.
unfoldable pub daily_prompt_once : ℕ → Bool → ℕ → Table ConnectionDay → Table ConnectionDay
daily_prompt_once now sent id t =
    if sent
    then update id (λ d. if not_prompted_yet d then record d { prompted_at = some now } else d) t
    else t

-- The part of a day that the sweep tests read.
abbrev pub sweep_view : ConnectionDay → SweepDay
sweep_view d = record {
  outcome = d.outcome;
  cutoff_at = d.cutoff_at;
  window_start_at = d.window_start_at;
  window_end_at = d.window_end_at;
  published_at = d.published_at;
}

abbrev pub status_of : Option FoodListing → Option ListingStatus
status_of none = none
status_of (some l) = some l.status

abbrev pub close_as : ℕ → ℕ → Option ConnectionDayOutcome → Db → Db
close_as now id none db = db
close_as now id (some outcome) db = record db {
  days = update id (λ d. record d { outcome = outcome; responded_at = some now }) db.days;
}

-- `skipOrCloseIfNotReleasable`: whether the sweep is done with the day, and the database.
unfoldable pub skip_or_close_if_not_releasable : ℕ → ℕ → ConnectionDay → Db → Bool × Db
skip_or_close_if_not_releasable now id day db = elim (day.listing_id) [
  | none ↦ (false, db)
  | some listing ↦
      let status = status_of (find listing db.listings) in
      elim (published_listing_sweep_action status) [
        | try_release ↦ (false, db)
        | await_collection ↦ (true, db)
        | close_missed ↦ (true, close_as now id (day_outcome_when_listing_closed status) db)
      ]
]

abbrev or_same : Result Db → Db → Db
or_same (ok db') db = db'
or_same (err e) db = db

abbrev mark_responded : ℕ → ℕ → Db → Db
mark_responded now id db = record db {
  days = update id (λ d. record d { responded_at = some now }) db.days;
}

-- One round of the loop of `sweepUnconfirmed`; an exception is logged, and changes nothing.
unfoldable pub sweep_unconfirmed_day : ℕ → ℕ × ConnectionDay → Db → Db
sweep_unconfirmed_day now (id, day) db =
    let skipped = skip_or_close_if_not_releasable now id day db in
    if skipped.0
    then skipped.1
    else if should_auto_release (sweep_view day) now
    then or_same (release now auto_released no_dto id day db) db
    else if is_none day.responded_at && should_escalate_to_business (sweep_view day) now
    then mark_responded now id db
    else db

unfoldable pub sweep_unconfirmed_days : ℕ → List (ℕ × ConnectionDay) → Db → Db
sweep_unconfirmed_days now [] db = db
sweep_unconfirmed_days now (row ∷ rows) db =
    sweep_unconfirmed_days now rows (sweep_unconfirmed_day now row db)

abbrev pub is_pending_release : ℕ × ConnectionDay → Bool
is_pending_release row = outcome_eq row.1.outcome published && is_some row.1.listing_id

unfoldable pub sweep_unconfirmed : ℕ → Db → Db
sweep_unconfirmed now db = sweep_unconfirmed_days now (keep is_pending_release db.days.rows) db

module _ (intl : Intl) (sent : ℕ → Bool) where
  -- The rounds of the loop of `promptDueCollections` for one connection.
  pub prompt_days : ℕ → ℕ → List ResolvedDay → Table ConnectionDay → Table ConnectionDay
  prompt_days now connection [] t = t
  prompt_days now connection (r ∷ rs) t =
      let (id, opened) = open_day connection r t in
      prompt_days now connection rs (daily_prompt_once now (sent id) id opened)

  abbrev donor_timezone : Db → Connection → Option Text
  donor_timezone db connection = elim (find connection.donor_site_id db.sites) [
    | none ↦ none
    | some site ↦ resolve_donor_timezone site.timezone
  ]

  pub prompt_connections : ℕ → List (ℕ × Connection) → Db → Db
  unfolding prompt_days
  prompt_connections now [] db = db
  prompt_connections now ((id, connection) ∷ rows) db =
      prompt_connections now rows (elim (donor_timezone db connection) [
        | none ↦ db
        | some zone ↦ record db {
          days = prompt_days now id (due_days intl zone connection.schedule now) db.days;
        }
      ])

  abbrev is_active : ℕ × Connection → Bool
  is_active row = connection_status_eq row.1.status ConnectionStatus.active

  unfoldable pub prompt_due_collections : ℕ → Db → Db
  unfolding prompt_connections
  prompt_due_collections now db = prompt_connections now (keep is_active db.connections.rows) db

  -- `updateMany` to NO_RESPONSE, taken back if the reminder could not be queued.
  abbrev no_answer : ℕ → Bool → ConnectionDay → ConnectionDay
  no_answer now reminded d =
      if outcome_eq d.outcome prompted && is_none d.listing_id
      then (if reminded
          then record d { outcome = no_response; responded_at = some now }
          else record d { outcome = prompted; responded_at = none })
      else d

  abbrev connection_timezone : Db → Connection → Option (Connection × Text)
  connection_timezone db connection = elim (donor_timezone db connection) [
    | none ↦ none
    | some zone ↦ some (connection, zone)
  ]

  abbrev zone_of_day : Db → ConnectionDay → Option (Connection × Text)
  zone_of_day db day = elim (find day.connection_id db.connections) [
    | none ↦ none
    | some connection ↦ connection_timezone db connection
  ]

  -- One round of the loop of `sweepMissed`.
  pub sweep_missed_day : ℕ → ℕ × ConnectionDay → Db → Db
  sweep_missed_day now (id, day) db = elim (zone_of_day db day) [
    | none ↦ db
    | some (connection, zone) ↦
        let r = resolve_day intl zone connection.schedule day.scheduled_date in
        let days = align_prompted_window id day r db.days in
        if is_business_list_by_due (aligned day r).window_start_at now
        then record db { days = update id (no_answer now (sent id)) days }
        else record db { days = days }
  ]

  pub sweep_missed_days : ℕ → List (ℕ × ConnectionDay) → Db → Db
  unfolding sweep_missed_day
  sweep_missed_days now [] db = db
  sweep_missed_days now (row ∷ rows) db = sweep_missed_days now rows (sweep_missed_day now row db)

  abbrev is_listing_due : ℕ → ℕ × ConnectionDay → Bool
  is_listing_due now row =
      outcome_eq row.1.outcome prompted
      && leb row.1.window_start_at (now + list_by_minutes * ms_per_minute)

  unfoldable pub sweep_missed : ℕ → Db → Db
  unfolding sweep_missed_days
  sweep_missed now db = sweep_missed_days now (keep (is_listing_due now) db.days.rows) db
