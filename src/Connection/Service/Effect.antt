-- ===== src/Connection/Service/Effect.antt =====
-- connection.service.ts and connection.worker.ts: what a request does to the rows of Connections.
pub mod Operations
use svforb.Common.{ℕ, ◌≡◌, ◌⊎◌, Bool, true, false, List, [], ◌∷◌, ◌++◌, ok, some}
use svforb.Common.Table.{lookup, modify, modify_where}
use svforb.Prisma.{ConnectionStatus}
use svforb.Store.{Connection}
use svforb.Connection.Rules.{can_transition}
use svforb.Connection.Schedule.Clock.{ScheduleInput, validate_schedule}
use svforb.Connection.Service.{has_clash, is_live}

-- The same Connection with a status that it may move to, or the same one.
pub record Steps (c c' : Connection) : Type 0 where
  pub moves : (c'.status ≡ c.status) ⊎ (can_transition c.status c'.status ≡ true)
  pub same_donor : c'.donor_site_id ≡ c.donor_site_id
  pub same_receiver : c'.receiver_site_id ≡ c.receiver_site_id
  pub same_donor_org : c'.donor_org_id ≡ c.donor_org_id
  pub same_receiver_org : c'.receiver_org_id ≡ c.receiver_org_id

-- A Connection as it is created.
pub record IsNew (c : Connection) (rows : List (ℕ × Connection)) : Type 0 where
  pub is_pending : c.status ≡ ConnectionStatus.pending
  pub valid : validate_schedule c.schedule ≡ ok tt
  pub free : has_clash c.donor_site_id c.receiver_site_id c.schedule rows ≡ false

-- What is done to the rows; a schedule is only written where the request edits one.
pub data Effect (edits : Bool) (rows rows' : List (ℕ × Connection)) : Type 0 where
  same : rows' ≡ rows → Effect edits rows rows'
  moved :
      (id : ℕ) (g : Connection → Connection) (old : Connection)
      → lookup id rows ≡ some old
      → rows' ≡ modify id g rows
      → Steps old (g old)
      → (g old).schedule ≡ old.schedule
      → Effect edits rows rows'
  edited :
      edits ≡ true
      → (id : ℕ) (s : ScheduleInput) (old : Connection) → lookup id rows ≡ some old
      → rows' ≡ modify id (λ c. record c { schedule = s }) rows
      → validate_schedule s ≡ ok tt
      → Effect edits rows rows'
  created :
      (n : ℕ) (new : Connection)
      → rows' ≡ rows ++ (n, new) ∷ []
      → IsNew new rows
      → Effect edits rows rows'
  swept :
      (p : Connection → Bool)
      → ((c : Connection) → p c ≡ true → c.status ≡ ConnectionStatus.pending)
      → rows' ≡ modify_where p (λ c. record c { status = ConnectionStatus.expired }) rows
      → Effect edits rows rows'
