-- ===== src/Connection/Service/Requests/Valid.antt =====
-- connection.service.ts: the schedules that are stored.
use svforb.Common.{
  ℕ, ◌≡◌, refl, Bool, List, [], ◌∷◌, ◌++◌, ok, arith, ◌==◌, some, Bool-cases, inl, inr,
}
use svforb.Common.Table.{modify, modify_where, lookup}
use svforb.Store.{Connection, Db}
use svforb.Connection.Schedule.Clock.{validate_schedule}
use svforb.Connection.Schedule.Calendar.{Intl}
use svforb.Connection.Service.Effect.{Effect, same, moved, edited, created, swept}
use svforb.Connection.Service.Requests.{Request, handle_all, handle_all-keeps, handle-Effect}

-- Every stored schedule is one that `validateSchedule` accepts.
abbrev pub AllValid : List (ℕ × Connection) → Type 0
AllValid [] = Unit {0}
AllValid ((i, c) ∷ rows) = (validate_schedule c.schedule ≡ ok tt) × AllValid rows

AllValid-append :
    (n : ℕ) (c : Connection) (rows : List (ℕ × Connection))
    → AllValid rows
    → validate_schedule c.schedule ≡ ok tt
    → AllValid (rows ++ (n, c) ∷ [])
AllValid-append n c [] h v = (v, tt)
AllValid-append n c (row ∷ rows) h v = (h.0, AllValid-append n c rows h.1 v)

AllValid-modify :
    (id : ℕ) (g : Connection → Connection) (rows : List (ℕ × Connection)) {old : Connection}
    → lookup id rows ≡ some old
    → ((validate_schedule old.schedule ≡ ok tt) → validate_schedule (g old).schedule ≡ ok tt)
    → AllValid rows
    → AllValid (modify id g rows)
AllValid-modify id g [] found keeps h = tt
AllValid-modify id g ((i, c) ∷ rows) {old} found keeps h = elim (Bool-cases (i == id)) [
  | inl here ↦
      let is_old : c ≡ old = ground arith in rw (here, is_old) (keeps (rw is_old at h.0), h.1)
  | inr other ↦ rw other (h.0, AllValid-modify id g rows {old = old} (ground arith) keeps h.1)
]

AllValid-modify_where :
    (p : Connection → Bool) (g : Connection → Connection) (rows : List (ℕ × Connection))
    → ((c : Connection) → (g c).schedule ≡ c.schedule)
    → AllValid rows
    → AllValid (modify_where p g rows)
AllValid-modify_where p g [] same_schedule h = tt
AllValid-modify_where p g ((i, c) ∷ rows) same_schedule h = (
  elim (Bool-cases (p c)) [
    | inl yes_it ↦ rw (yes_it, same_schedule c) h.0
    | inr no_it ↦ rw no_it h.0
  ],
  AllValid-modify_where p g rows same_schedule h.1,
)

Effect-AllValid :
    {edits : Bool} (rows rows' : List (ℕ × Connection))
    → Effect edits rows rows'
    → AllValid rows
    → AllValid rows'
Effect-AllValid rows rows' (same e) h = rw e h
Effect-AllValid rows rows' (moved id g old found written step kept) h =
    rw written (AllValid-modify id g rows found (λ v. rw kept v) h)
Effect-AllValid rows rows' (edited by_edit id s old found written valid) h =
    rw written (AllValid-modify id (λ c. record c { schedule = s }) rows found (λ v. valid) h)
Effect-AllValid rows rows' (created n new e is_new) h =
    rw e (AllValid-append n new rows h is_new.valid)
Effect-AllValid rows rows' (swept p pending e) h =
    rw e (AllValid-modify_where p _ rows (λ c. refl) h)

-- However many requests are served, invitations and edits among them, every stored schedule is one
-- that `validateSchedule` accepts, if that holds before.
pub handle_all-AllValid :
    (intl : Intl) (rs : List Request) (db : Db)
    → AllValid db.connections.rows
    → AllValid (handle_all intl rs db).connections.rows
handle_all-AllValid intl =
    handle_all-keeps intl (λ db. AllValid db.connections.rows)
      (λ r db db' h e.
        Effect-AllValid db.connections.rows db'.connections.rows (handle-Effect intl r db db' e) h)
