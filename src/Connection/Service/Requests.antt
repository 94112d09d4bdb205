-- ===== src/Connection/Service/Requests.antt =====
-- connection.service.ts and connection.worker.ts: what the requests do to the Connections.
pub mod Moves
pub mod Windows
pub mod Valid
pub mod Apart
use svforb.Common.{
  ℕ, ◌≡◌, Bool, true, false, List, [], ◌∷◌, inl, inr, Result, ok, err, Result-cases, ◌>>=◌, ◌>>◌,
  >>=-eq-ok, arith,
}
use svforb.Prisma.{ConnectionStatus}
use svforb.Store.{Db}
use svforb.Claims.{Caller}
use svforb.Connection.Schedule.Clock.{Text}
use svforb.Connection.Schedule.Calendar.{Intl}
use svforb.Connection.Service as Service
use svforb.Connection.Service.{CreateConnectionDto, UpdateConnectionDto}
use svforb.Connection.Service.Effect.{Effect, same}
use svforb.Connection.Service.Effect.Operations.{
  invite-Effect, accept-Effect, decline-Effect, set_status-Effect, update_connection-Effect,
  get_one-connections, expire_invitations-Effect, set_site_timezone-connections,
}

-- A request, with the time at which it is served and whether a push can be queued, where they are
-- read.
pub data Request : Type 0 where
  invite : ℕ → Caller → CreateConnectionDto → Request
  accept : ℕ → Bool → Caller → ℕ → Request
  decline : Caller → ℕ → Request
  set_status : Caller → ℕ → ConnectionStatus → Request
  edit : Caller → ℕ → UpdateConnectionDto → Request
  read : ℕ → Bool → Caller → ℕ → Request
  expire : ℕ → Request
  set_timezone : Caller → ℕ → Text → Request

-- The request edits a schedule.
abbrev pub is_edit : Request → Bool
is_edit (edit caller id dto) = true
is_edit r = false

-- The database after a request.
unfoldable pub handle : Intl → Request → Db → Result Db
handle intl (invite now caller dto) db = do out ← Service.invite intl now caller dto db; ok out.1
handle intl (accept now sent caller id) db = Service.accept intl now sent caller id db
handle intl (decline caller id) db = Service.decline caller id db
handle intl (set_status caller id status) db = Service.set_status caller id status db
handle intl (edit caller id dto) db = Service.update_connection caller id dto db
handle intl (read now sent caller id) db = Service.get_one intl now sent caller id db
handle intl (expire now) db = ok (Service.expire_invitations now db)
handle intl (set_timezone caller site zone) db = Service.set_site_timezone intl caller site zone db

abbrev or_unchanged : Result Db → Db → Db
or_unchanged (ok db') db = db'
or_unchanged (err e) db = db

-- A sequence of requests; one that throws changes nothing.
unfoldable pub handle_all : Intl → List Request → Db → Db
handle_all intl [] db = db
handle_all intl (r ∷ rs) db = handle_all intl rs (or_unchanged (handle intl r db) db)

module _ {κ} (intl : Intl) (P : Db → Type κ) where
  -- What every request keeps, every sequence of requests keeps.
  pub handle_all-keeps :
      ((r : Request) (db db' : Db) → P db → handle intl r db ≡ ok db' → P db')
      → (rs : List Request) (db : Db) → P db
      → P (handle_all intl rs db)
  unfolding handle_all
  handle_all-keeps step [] db p = p
  handle_all-keeps step (r ∷ rs) db p = elim (Result-cases (handle intl r db)) [
    | inl (x, e) ↦ rw e (handle_all-keeps step rs db p)
    | inr (db', e) ↦ rw e (handle_all-keeps step rs db' (step r db db' p e))
  ]

-- What a request to a Connection does to its row.
pub handle-Effect :
    (intl : Intl) (r : Request) (db db' : Db)
    → handle intl r db ≡ ok db'
    → Effect (is_edit r) db.connections.rows db'.connections.rows
unfolding handle
handle-Effect intl (invite now caller dto) db db' h =
    let (out, e, done) = >>=-eq-ok (Service.invite intl now caller dto db) (λ out. ok out.1) h in
    let done' : out.1 ≡ db' = ground arith in
    rw (← done') (invite-Effect intl now caller dto db out e)
handle-Effect intl (accept now sent caller id) db db' h =
    accept-Effect intl now sent caller id db db' h
handle-Effect intl (decline caller id) db db' h = decline-Effect caller id db db' h
handle-Effect intl (set_status caller id status) db db' h =
    set_status-Effect caller id db db' status h
handle-Effect intl (edit caller id dto) db db' h = update_connection-Effect caller id db db' dto h
handle-Effect intl (read now sent caller id) db db' h =
    let kept = get_one-connections intl now sent caller id db db' h in same (ground arith)
handle-Effect intl (expire now) db db' h =
    let done : Service.expire_invitations now db ≡ db' = ground arith in
    rw (← done) (expire_invitations-Effect now db)
handle-Effect intl (set_timezone caller site zone) db db' h =
    let kept = set_site_timezone-connections intl caller site zone db db' h in same (ground arith)
