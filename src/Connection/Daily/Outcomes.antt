-- ===== src/Connection/Daily/Outcomes.antt =====
-- connection.daily.service.ts: how the answers of the business and the charity change the outcome
-- of a collection day.
use svforb.Common.{
  ℕ, ◌≡◌, refl, ◌∙◌, Bool, true, false, ◌==◌, some, List, [], ◌∷◌, ok, err, Result, arith, inl, inr,
  Bool-cases, Option-cases, Result-cases, >>=-eq-ok, ◌>>=◌,
}
use svforb.Common.Int.{ℤ}
use svforb.Common.Table.{find, modify, lookup-modify}
use svforb.Prisma.{
  ConnectionDayOutcome, prompted, published, no_surplus, no_response, missed, outcome_eq,
}
use svforb.Store.{ConnectionDay, Connection, Db}
use svforb.Connection.Rules.{ReleaseTrigger}
use svforb.Claims.{Caller}
use svforb.Connection.Daily.{
  ReleaseDayDto, no_dto, require_day, assert_donor_staff, publish_day, release_day, write_surplus,
  add_daily_surplus, declare_no_surplus, release, charity_cannot_collect, release_to_network,
}
use svforb.Connection.Daily.Surplus.{add_daily_surplus-Answered}
use svforb.Connection.Daily.Release.{release-Released}

-- The outcomes that a day may have after an answer.
pub outcome_may_become : ConnectionDayOutcome → ConnectionDayOutcome → Bool
outcome_may_become prompted o = true
outcome_may_become no_response prompted = false
outcome_may_become no_response o = true
outcome_may_become published prompted = false
outcome_may_become published no_response = false
outcome_may_become published no_surplus = false
outcome_may_become published o = true
outcome_may_become no_surplus o = outcome_eq o no_surplus
outcome_may_become ConnectionDayOutcome.collected o = outcome_eq o ConnectionDayOutcome.collected
outcome_may_become ConnectionDayOutcome.released o = outcome_eq o ConnectionDayOutcome.released
outcome_may_become missed o = outcome_eq o missed

outcome_may_become_refl : (o : ConnectionDayOutcome) → outcome_may_become o o ≡ true
unfolding outcome_may_become
outcome_may_become_refl o = ground arith

outcome_may_become_trans :
    (a b c : ConnectionDayOutcome)
    → outcome_may_become a b ≡ true
    → outcome_may_become b c ≡ true
    → outcome_may_become a c ≡ true
unfolding outcome_may_become
outcome_may_become_trans a b c h k = ground arith

-- A day after an answer: of the same connection, date and window.
pub record DayFollows (d d' : ConnectionDay) : Type 0 where
  pub outcome : outcome_may_become d.outcome d'.outcome ≡ true
  pub same_connection : d'.connection_id ≡ d.connection_id
  pub same_date : d'.scheduled_date ≡ d.scheduled_date
  pub same_end : d'.window_end_at ≡ d.window_end_at

DayFollows-refl : (d : ConnectionDay) → DayFollows d d
DayFollows-refl d = record {
  outcome = outcome_may_become_refl d.outcome;
  same_connection = refl;
  same_date = refl;
  same_end = refl;
}

DayFollows-trans : (c d e : ConnectionDay) → DayFollows c d → DayFollows d e → DayFollows c e
DayFollows-trans c d e f g = record {
  outcome = outcome_may_become_trans c.outcome d.outcome e.outcome f.outcome g.outcome;
  same_connection = g.same_connection ∙ f.same_connection;
  same_date = g.same_date ∙ f.same_date;
  same_end = g.same_end ∙ f.same_end;
}

-- Every day is still there, and follows from what it was.
abbrev pub DaysFollow : Db → Db → Type 0
DaysFollow db db' =
    (j : ℕ) (d : ConnectionDay)
    → find j db.days ≡ some d
    → (d' : ConnectionDay) × (find j db'.days ≡ some d') × DayFollows d d'

one_day_changed :
    (id : ℕ) (db db' : Db) (g : ConnectionDay → ConnectionDay) {old : ConnectionDay}
    → find id db.days ≡ some old
    → db'.days.rows ≡ modify id g db.days.rows
    → DayFollows old (g old)
    → DaysFollow db db'
one_day_changed id db db' g {old} found written step j d e = elim (Bool-cases (id == j)) [
  | inl here ↦
      let same : old ≡ d = ground arith in
      (g old, ground (arith, written, lookup-modify id j g db.days.rows), rw (← same) step)
  | inr other ↦ (d, ground (arith, written, lookup-modify id j g db.days.rows), DayFollows-refl d)
]

-- An answer, with the time at which it comes.
pub data Answer : Type 0 where
  surplus : ℕ → Caller → ℕ → List ℤ → Answer
  nothing : ℕ → Caller → ℕ → Answer
  cannot_collect : ℕ → Caller → ℕ → Answer
  to_network : ℕ → Caller → ℕ → ReleaseDayDto → Answer

unfoldable pub answer : Answer → Db → Result Db
answer (surplus now caller id items) db = do
  out ← add_daily_surplus now caller id items db
  ok out.1
answer (nothing now caller id) db = declare_no_surplus now caller id db
answer (cannot_collect now caller id) db = charity_cannot_collect now caller id db
answer (to_network now caller id dto) db = release_to_network now caller id dto db

abbrev or_unchanged : Result Db → Db → Db
or_unchanged (ok db') db = db'
or_unchanged (err e) db = db

-- A sequence of answers; one that throws changes nothing.
unfoldable pub answer_all : List Answer → Db → Db
answer_all [] db = db
answer_all (a ∷ rest) db = answer_all rest (or_unchanged (answer a db) db)

require_day-found :
    (id : ℕ) (db : Db) (day : ConnectionDay) (connection : Connection)
    → require_day id db ≡ ok (day, connection)
    → find id db.days ≡ some day
unfolding require_day
require_day-found id db day connection e = elim (Option-cases (find id db.days)) [
  | inl none_there ↦ absurd (ground arith)
  | inr (d, found) ↦ elim (Option-cases (find d.connection_id db.connections)) [
    | inl none_there ↦ absurd (ground arith)
    | inr (c, found_c) ↦ ground arith
  ]
]

add_daily_surplus-DaysFollow :
    (now : ℕ) (caller : Caller) (id : ℕ) (items : List ℤ) (db : Db) (out : ℕ × Db)
    → add_daily_surplus now caller id items db ≡ ok out
    → DaysFollow db out.1
unfolding write_surplus outcome_may_become
add_daily_surplus-DaysFollow now caller id items db out h =
    let a = add_daily_surplus-Answered now caller id items db out h in
    let un = a.unanswered in
    rw (← a.written) (
      one_day_changed id db (write_surplus now id a.day a.connection a.site items db).1
        (publish_day now db.listings.next) a.found refl
        (record {
          outcome = ground arith;
          same_connection = refl;
          same_date = refl;
          same_end = refl;
        }))

declare_no_surplus-DaysFollow :
    (now : ℕ) (caller : Caller) (id : ℕ) (db db' : Db)
    → declare_no_surplus now caller id db ≡ ok db'
    → DaysFollow db db'
unfolding declare_no_surplus outcome_may_become
declare_no_surplus-DaysFollow now caller id db db' h = elim (Result-cases (require_day id db)) [
  | inl (x, e) ↦ absurd (ground arith)
  | inr ((day, connection), ed) ↦
      elim (Result-cases (assert_donor_staff caller connection.donor_site_id db)) [
        | inl (x, e) ↦ absurd (ground arith)
        | inr (u, es) ↦
            one_day_changed id db db'
              (λ d. record d { outcome = no_surplus; responded_at = some now })
              (require_day-found id db day connection ed) (ground arith)
              (record {
                outcome = ground arith;
                same_connection = refl;
                same_date = refl;
                same_end = refl;
              })
      ]
]

release-DaysFollow :
    (now : ℕ) (trigger : ReleaseTrigger) (dto : ReleaseDayDto) (id : ℕ) (day : ConnectionDay)
    (db db' : Db)
    → find id db.days ≡ some day
    → release now trigger dto id day db ≡ ok db'
    → DaysFollow db db'
unfolding outcome_may_become
release-DaysFollow now trigger dto id day db db' found h =
    let r = release-Released now trigger dto id day db db' h in
    let was = r.was_published in
    one_day_changed id db db' (release_day now) found r.days_written
      (record { outcome = ground arith; same_connection = refl; same_date = refl; same_end = refl })

charity_cannot_collect-DaysFollow :
    (now : ℕ) (caller : Caller) (id : ℕ) (db db' : Db)
    → charity_cannot_collect now caller id db ≡ ok db'
    → DaysFollow db db'
unfolding charity_cannot_collect
charity_cannot_collect-DaysFollow now caller id db db' h = elim (Result-cases (require_day id db)) [
  | inl (x, e) ↦ absurd (ground arith)
  | inr ((day, connection), ed) ↦
      release-DaysFollow now ReleaseTrigger.charity_declined no_dto id day db db'
        (require_day-found id db day connection ed) (ground arith)
]

release_to_network-DaysFollow :
    (now : ℕ) (caller : Caller) (id : ℕ) (dto : ReleaseDayDto) (db db' : Db)
    → release_to_network now caller id dto db ≡ ok db'
    → DaysFollow db db'
unfolding release_to_network
release_to_network-DaysFollow now caller id dto db db' h = elim (Result-cases (require_day id db)) [
  | inl (x, e) ↦ absurd (ground arith)
  | inr ((day, connection), ed) ↦
      elim (Result-cases (assert_donor_staff caller connection.donor_site_id db)) [
        | inl (x, e) ↦ absurd (ground arith)
        | inr (u, es) ↦
            release-DaysFollow now ReleaseTrigger.business_released dto id day db db'
              (require_day-found id db day connection ed) (ground arith)
      ]
]

answer-DaysFollow : (a : Answer) (db db' : Db) → answer a db ≡ ok db' → DaysFollow db db'
unfolding answer
answer-DaysFollow (surplus now caller id items) db db' h =
    let (out, e, same) = >>=-eq-ok (add_daily_surplus now caller id items db) (λ out. ok out.1) h in
    let same' : out.1 ≡ db' = ground arith in
    rw (← same') (add_daily_surplus-DaysFollow now caller id items db out e)
answer-DaysFollow (nothing now caller id) db db' h =
    declare_no_surplus-DaysFollow now caller id db db' h
answer-DaysFollow (cannot_collect now caller id) db db' h =
    charity_cannot_collect-DaysFollow now caller id db db' h
answer-DaysFollow (to_network now caller id dto) db db' h =
    release_to_network-DaysFollow now caller id dto db db' h

-- However the business and the charity answer, in any order and whether an answer is accepted or
-- throws, every day is still there, of the same connection, date and window end. Its outcome never
-- goes back: not from no response to prompted, not from published to prompted, no response or no
-- surplus; and a day that is collected, released, missed or without surplus stays so.
pub answer_all-DaysFollow :
    (answers : List Answer) (db : Db) → DaysFollow db (answer_all answers db)
unfolding answer_all
answer_all-DaysFollow [] db = λ j d e. (d, e, DayFollows-refl d)
answer_all-DaysFollow (a ∷ rest) db = elim (Result-cases (answer a db)) [
  | inl (x, e) ↦ rw (answer_all, e) (answer_all-DaysFollow rest db)
  | inr (db', e) ↦
      rw (answer_all, e)
        (λ j d found.
          let (d1, found1, step) = answer-DaysFollow a db db' e j d found in
          let (d2, found2, steps) = answer_all-DaysFollow rest db' j d1 found1 in
          (d2, found2, DayFollows-trans d d1 d2 step steps))
]
