-- ===== src/Connection/Service/Effect/Operations.antt =====
-- connection.service.ts: the effect of each operation.
use svforb.Common.{
  ℕ, ◌≡◌, refl, ◌&&◌, Bool, true, false, some, List, [], ◌∷◌, arith, ok, inl, inr, Option-cases,
  Result-cases, ◌∙◌,
}
use svforb.Common.Table.{find}
use svforb.Prisma.{ConnectionStatus, connection_status_eq}
use svforb.Store.{Connection, Db}
use svforb.Claims.{Caller}
use svforb.Connection.Rules.{can_transition, assert_transition}
use svforb.Connection.Schedule.Clock.{Text, ScheduleInput, parse_local_time}
use svforb.Connection.Schedule.Calendar.{Intl}
use svforb.Connection.Service.{
  CreateConnectionDto, UpdateConnectionDto, invite, accept, decline, set_status, update_connection,
  get_one, ensure_open_today, expire_invitations, set_site_timezone, has_clash, requested_schedule,
  updated_schedule, sort_days, invitation, zone_or_none, parse_or, is_expired, pickup_window,
  with_status,
}
use svforb.Connection.Service.Schedules.{validate_schedule-sort, schedules_overlap-sort}
use svforb.Connection.Service.Effect.{Effect, moved, edited, created, swept}

abbrev pub ConnectionEffect : Bool → Db → Db → Type 0
ConnectionEffect edits db db' = Effect edits db.connections.rows db'.connections.rows

-- A write of a status that the old one may move to.
with_status-Effect :
    (id : ℕ) (status : ConnectionStatus) (db : Db) {c : Connection}
    → find id db.connections ≡ some c
    → can_transition c.status status ≡ true
    → ConnectionEffect false db (with_status id status db)
with_status-Effect id status db {c} found allowed =
    moved id (λ r. record r { status = status }) c found refl
      (record {
        moves = inr allowed;
        same_donor = refl;
        same_receiver = refl;
        same_donor_org = refl;
        same_receiver_org = refl;
      })
      refl

has_clash-sort :
    (donor receiver : ℕ) (s : ScheduleInput) (rows : List (ℕ × Connection))
    → has_clash donor receiver (sort_days s) rows ≡ has_clash donor receiver s rows
unfolding has_clash
has_clash-sort donor receiver s [] = refl
has_clash-sort donor receiver s (row ∷ rows) = ground (
  arith,
  has_clash-sort donor receiver s rows,
  schedules_overlap-sort s (pickup_window row.1.schedule),
)

module _ (intl : Intl) where
  ensure_open_today-connections :
      (now : ℕ) (sent : Bool) (id : ℕ) (c : Connection) (db : Db)
      → (ensure_open_today intl now sent id c db).connections ≡ db.connections
  unfolding ensure_open_today
  ensure_open_today-connections now sent id c db = ground arith

  pub get_one-connections :
      (now : ℕ) (sent : Bool) (caller : Caller) (id : ℕ) (db db' : Db)
      → get_one intl now sent caller id db ≡ ok db'
      → db'.connections ≡ db.connections
  unfolding get_one
  get_one-connections now sent caller id db db' h = elim (Option-cases (find id db.connections)) [
    | inl e ↦ absurd (ground arith)
    | inr (c, e) ↦ ground (arith, ensure_open_today-connections now sent id c db)
  ]

  pub accept-Effect :
      (now : ℕ) (sent : Bool) (caller : Caller) (id : ℕ) (db db' : Db)
      → accept intl now sent caller id db ≡ ok db'
      → ConnectionEffect false db db'
  unfolding accept assert_transition
  accept-Effect now sent caller id db db' h = elim (Option-cases (find id db.connections)) [
    | inl e ↦ absurd (ground arith)
    | inr (c, e) ↦
        let accepted : Connection = record c { status = ConnectionStatus.active } in
        let written = with_status id ConnectionStatus.active db in
        let opened = ensure_open_today intl now sent id accepted written in
        let last : get_one intl now sent caller id opened ≡ ok db' = ground arith in
        let same_rows : db'.connections ≡ written.connections =
          get_one-connections now sent caller id opened db' last
          ∙ ensure_open_today-connections now sent id accepted written in
        rw same_rows (with_status-Effect id ConnectionStatus.active db e (ground arith))
  ]

  pub invite-Effect :
      (now : ℕ) (caller : Caller) (dto : CreateConnectionDto) (db : Db) (out : ℕ × Db)
      → invite intl now caller dto db ≡ ok out
      → ConnectionEffect false db out.1
  unfolding invite
  invite-Effect now caller dto db out h = elim (Option-cases (find dto.donor_site_id db.sites)) [
    | inl e ↦ absurd (ground arith)
    | inr (donor, ed) ↦ elim (Option-cases (zone_or_none donor.timezone)) [
      | inl e ↦ absurd (ground arith)
      | inr (zone, ez) ↦ elim (Option-cases (find dto.receiver_site_id db.sites)) [
        | inl e ↦ absurd (ground arith)
        | inr (receiver, er) ↦
            elim (Option-cases (find receiver.organisation_id db.organisations)) [
              | inl e ↦ absurd (ground arith)
              | inr (org, eo) ↦ elim (Result-cases (parse_local_time dto.window_start)) [
                | inl (x, e) ↦ absurd (ground arith)
                | inr (start, es) ↦ elim (Result-cases (parse_local_time dto.window_end)) [
                  | inl (x, e) ↦ absurd (ground arith)
                  | inr (end, ee) ↦
                      let s = requested_schedule dto start end in
                      created db.connections.next (invitation now dto donor receiver s)
                        (ground arith)
                        (record {
                          is_pending = refl;
                          valid = validate_schedule-sort s (ground arith);
                          free =
                              has_clash-sort dto.donor_site_id dto.receiver_site_id s
                                db.connections.rows
                              ∙ ground arith;
                        })
                ]
              ]
            ]
      ]
    ]
  ]

  pub set_site_timezone-connections :
      (caller : Caller) (site : ℕ) (zone : Text) (db db' : Db)
      → set_site_timezone intl caller site zone db ≡ ok db'
      → db'.connections ≡ db.connections
  unfolding set_site_timezone
  set_site_timezone-connections caller site zone db db' h = ground arith

module _ (caller : Caller) (id : ℕ) (db db' : Db) where
  pub decline-Effect : decline caller id db ≡ ok db' → ConnectionEffect false db db'
  unfolding decline assert_transition
  decline-Effect h = elim (Option-cases (find id db.connections)) [
    | inl e ↦ absurd (ground arith)
    | inr (c, e) ↦
        let done : with_status id ConnectionStatus.declined db ≡ db' = ground arith in
        rw (← done) (with_status-Effect id ConnectionStatus.declined db e (ground arith))
  ]

  pub set_status-Effect :
      (status : ConnectionStatus)
      → set_status caller id status db ≡ ok db'
      → ConnectionEffect false db db'
  unfolding set_status assert_transition
  set_status-Effect status h = elim (Option-cases (find id db.connections)) [
    | inl e ↦ absurd (ground arith)
    | inr (c, e) ↦
        let done : with_status id status db ≡ db' = ground arith in
        rw (← done) (with_status-Effect id status db e (ground arith))
  ]

  pub update_connection-Effect :
      (dto : UpdateConnectionDto)
      → update_connection caller id dto db ≡ ok db'
      → ConnectionEffect true db db'
  unfolding update_connection
  update_connection-Effect dto h = elim (Option-cases (find id db.connections)) [
    | inl e ↦ absurd (ground arith)
    | inr (c, e) ↦ elim (Result-cases (parse_or dto.window_start c.schedule.window_start_minutes)) [
      | inl (x, ex) ↦ absurd (ground arith)
      | inr (start, es) ↦
          elim (Result-cases (parse_or dto.window_end c.schedule.window_end_minutes)) [
            | inl (x, ex) ↦ absurd (ground arith)
            | inr (end, ee) ↦
                let s = updated_schedule dto c.schedule start end in
                edited refl id (sort_days s) c e (ground arith)
                  (validate_schedule-sort s (ground arith))
          ]
    ]
  ]

pub expire_invitations-Effect :
    (now : ℕ) (db : Db) → ConnectionEffect false db (expire_invitations now db)
unfolding expire_invitations
expire_invitations-Effect now db =
    swept
      (λ c.
        connection_status_eq c.status ConnectionStatus.pending
        && is_expired now c.invitation_expires_at)
      (λ c h. ground arith) refl
