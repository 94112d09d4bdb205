-- ===== src/Connection/Service/Requests/Windows.antt =====
-- connection.service.ts: the windows of the live Connections of one pair of sites.
use svforb.Common.{
  ℕ, ◌≡◌, refl, Bool, true, false, ◌||◌, List, [], ◌∷◌, ◌++◌, ok, arith, ◌==◌, some, Bool-cases,
  Result-cases, inl, inr, any, any-append, ◌⊎◌, ◌≢◌,
}
use svforb.Common.Table.{
  find, lookup, modify, modify_where, update, lookup-modify_self, lookup-modify_ne,
}
use svforb.Prisma.{ConnectionStatus}
use svforb.Store.{Connection, Db}
use svforb.Claims.{Caller}
use svforb.Connection.Rules.{can_transition}
use svforb.Connection.Schedule.Clock.{ScheduleInput, validate_schedule}
use svforb.Connection.Schedule.Calendar.{Intl}
use svforb.Connection.Service.{
  UpdateConnectionDto, has_clash, clashes, is_live, pickup_window, update_connection, sort_days,
  updated_schedule, assert_site_admin, parse_or,
}
use svforb.Connection.Service.Schedules.{schedules_overlap_comm, schedules_overlap-sort}
use svforb.Connection.Service.Effect.{Effect, same, moved, edited, created, swept, Steps}
use svforb.Connection.Service.Requests.{Request, handle, handle_all, is_edit, handle-Effect}

-- No live Connection clashes with one that stands after it.
abbrev pub NoClash : List (ℕ × Connection) → Type 0
NoClash [] = Unit {0}
NoClash ((i, c) ∷ rows) =
    ((is_live c.status ≡ true)
      → has_clash c.donor_site_id c.receiver_site_id c.schedule rows ≡ false)
    × NoClash rows

-- A live Connection has not come from one that was not live.
live_before :
    (s t : ConnectionStatus)
    → (t ≡ s) ⊎ (can_transition s t ≡ true)
    → is_live t ≡ true
    → is_live s ≡ true
unfolding can_transition
live_before s t (inl e) live = rw (← e) live
live_before s t (inr allowed) live = ground arith

module _ (donor receiver : ℕ) (s : ScheduleInput) where
  has_clash-modify :
      (id : ℕ) (g : Connection → Connection) (rows : List (ℕ × Connection)) {old : Connection}
      → lookup id rows ≡ some old
      → Steps old (g old)
      → (g old).schedule ≡ old.schedule
      → has_clash donor receiver s rows ≡ false
      → has_clash donor receiver s (modify id g rows) ≡ false
  unfolding has_clash
  has_clash-modify id g [] found step kept free = refl
  has_clash-modify id g ((i, c) ∷ rows) {old} found step kept free = elim (Bool-cases (i == id)) [
    | inl here ↦
        let is_old : c ≡ old = ground arith in
        let back = live_before old.status (g old).status step.moves in
        let same_donor = step.same_donor in
        let same_receiver = step.same_receiver in
        elim (Bool-cases (is_live (g old).status)) [
          | inl live ↦ let was_live = back live in ground arith
          | inr dead ↦ ground arith
        ]
    | inr other ↦ ground (arith, has_clash-modify id g rows {old = old})
  ]

  has_clash-modify_where :
      (p : Connection → Bool) (rows : List (ℕ × Connection))
      → has_clash donor receiver s rows ≡ false
      → has_clash donor receiver s
          (modify_where p (λ c. record c { status = ConnectionStatus.expired }) rows)
        ≡ false
  unfolding has_clash
  has_clash-modify_where p [] free = refl
  has_clash-modify_where p ((i, c) ∷ rows) free = ground (arith, has_clash-modify_where p rows)

  has_clash-append :
      (n : ℕ) (new : Connection) (rows : List (ℕ × Connection))
      → has_clash donor receiver s (rows ++ (n, new) ∷ [])
        ≡ (has_clash donor receiver s rows || clashes donor receiver s new)
  unfolding has_clash
  has_clash-append n new rows = any-append (λ row. clashes donor receiver s row.1) rows (n, new)

-- If no live row clashes with the new Connection, it clashes with none of them.
NoClash-append :
    (n : ℕ) (new : Connection) (rows : List (ℕ × Connection))
    → NoClash rows
    → has_clash new.donor_site_id new.receiver_site_id new.schedule rows ≡ false
    → NoClash (rows ++ (n, new) ∷ [])
unfolding has_clash
NoClash-append n new [] h free = ((λ live. refl), tt)
NoClash-append n new ((i, c) ∷ rows) h free = (
  (λ live.
      let before = h.0 live in
      let comm = schedules_overlap_comm (pickup_window new.schedule) (pickup_window c.schedule) in
      ground (arith, has_clash-append c.donor_site_id c.receiver_site_id c.schedule n new rows)),
  NoClash-append n new rows h.1 (ground arith),
)

NoClash-modify :
    (id : ℕ) (g : Connection → Connection) (rows : List (ℕ × Connection)) {old : Connection}
    → lookup id rows ≡ some old
    → Steps old (g old)
    → (g old).schedule ≡ old.schedule
    → NoClash rows
    → NoClash (modify id g rows)
NoClash-modify id g [] found step kept h = tt
NoClash-modify id g ((i, c) ∷ rows) {old} found step kept h = elim (Bool-cases (i == id)) [
  | inl here ↦
      let is_old : c ≡ old = ground arith in
      rw (here, is_old)
        (
          (λ live.
              rw (step.same_donor, step.same_receiver, kept)
                ((rw is_old at h.0) (live_before old.status (g old).status step.moves live))),
          h.1,
        )
  | inr other ↦ rw other (
    (λ live.
        has_clash-modify c.donor_site_id c.receiver_site_id c.schedule id g rows {old = old}
          (ground arith) step kept (h.0 live)),
    NoClash-modify id g rows {old = old} (ground arith) step kept h.1,
  )
]

NoClash-modify_where :
    (p : Connection → Bool) (rows : List (ℕ × Connection))
    → NoClash rows
    → NoClash (modify_where p (λ c. record c { status = ConnectionStatus.expired }) rows)
NoClash-modify_where p [] h = tt
NoClash-modify_where p ((i, c) ∷ rows) h = (
  (λ live. elim (Bool-cases (p c)) [
    | inl gone ↦ absurd (ground arith)
    | inr stays ↦ rw stays (
        has_clash-modify_where c.donor_site_id c.receiver_site_id c.schedule p rows
          (h.0 (ground arith)))
  ]),
  NoClash-modify_where p rows h.1,
)

Effect-NoClash :
    (rows rows' : List (ℕ × Connection)) → Effect false rows rows' → NoClash rows → NoClash rows'
Effect-NoClash rows rows' (same e) h = rw e h
Effect-NoClash rows rows' (moved id g old found written step kept) h =
    rw written (NoClash-modify id g rows found step kept h)
Effect-NoClash rows rows' (edited by_edit id s old found written valid) h = absurd (cc)
Effect-NoClash rows rows' (created n new e is_new) h =
    rw e (NoClash-append n new rows h is_new.free)
Effect-NoClash rows rows' (swept p pending e) h = rw e (NoClash-modify_where p rows h)

-- However many requests are served, if none of them edits a schedule, then no live Connection
-- clashes with one that stands after it, if that holds before.
pub handle_all-NoClash :
    (intl : Intl) (rs : List Request) (db : Db)
    → any is_edit rs ≡ false
    → NoClash db.connections.rows
    → NoClash (handle_all intl rs db).connections.rows
unfolding handle_all
handle_all-NoClash intl [] db no_edit h = h
handle_all-NoClash intl (r ∷ rs) db no_edit h = elim (Result-cases (handle intl r db)) [
  | inl (x, e) ↦ rw (handle_all, e) (handle_all-NoClash intl rs db (ground arith) h)
  | inr (db', e) ↦
      let not_this : is_edit r ≡ false = ground arith in
      rw (handle_all, e)
        (handle_all-NoClash intl rs db' (ground arith) (
          Effect-NoClash db.connections.rows db'.connections.rows
            (rw not_this at (handle-Effect intl r db db' e)) h))
]

-- An edit does not look at the other Connections. If one of two live Connections between one pair
-- of sites is given a valid schedule that overlaps the other's, by someone who may manage the site,
-- then the edit succeeds and the two clash.
pub update_connection-clashes :
    (caller : Caller) (id j : ℕ) (dto : UpdateConnectionDto) (db : Db) (start end : ℕ)
    {c other : Connection}
    → id ≢ j
    → find id db.connections ≡ some c
    → find j db.connections ≡ some other
    → is_live c.status ≡ true
    → clashes c.donor_site_id c.receiver_site_id (updated_schedule dto c.schedule start end) other
      ≡ true
    → assert_site_admin caller c.donor_site_id db ≡ ok tt
    → parse_or dto.window_start c.schedule.window_start_minutes ≡ ok start
    → parse_or dto.window_end c.schedule.window_end_minutes ≡ ok end
    → validate_schedule (updated_schedule dto c.schedule start end) ≡ ok tt
    → (db' : Db) × (c' : Connection) × (update_connection caller id dto db ≡ ok db')
      × (find id db'.connections ≡ some c')
      × (find j db'.connections ≡ some other)
      × (is_live c'.status ≡ true)
      × (clashes c'.donor_site_id c'.receiver_site_id c'.schedule other ≡ true)
unfolding update_connection
update_connection-clashes caller id j dto db start end {c} {other} ne found found_other live clash
      may parsed_start parsed_end valid =
    let s = updated_schedule dto c.schedule start end in
    let g : Connection → Connection = λ r. record r { schedule = sort_days s } in
    (
      record db { connections = update id g db.connections },
      g c,
      ground arith,
      ground (arith, lookup-modify_self id g db.connections.rows {r = c}),
      ground (arith, lookup-modify_ne id j g db.connections.rows),
      live,
      ground (arith, schedules_overlap-sort s (pickup_window other.schedule)),
    )
