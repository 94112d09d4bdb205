-- ===== src/Connection/Service/Requests/Moves.antt =====
-- connection.service.ts and connection.worker.ts: the life of a Connection under the requests.
use svforb.Common.{
  ℕ, ◌≡◌, refl, ◌∙◌, Bool, List, [], ◌∷◌, arith, ◌==◌, some, if◌then◌else◌, Bool-cases, inl, inr,
}
use svforb.Common.Table.{find, lookup, modify_where, lookup-modify, lookup-append_some}
use svforb.Prisma.{ConnectionStatus}
use svforb.Store.{Connection, Db}
use svforb.Connection.Rules.{can_transition}
use svforb.Connection.Rules.Transitions.{Moves, here, next}
use svforb.Connection.Schedule.Calendar.{Intl}
use svforb.Connection.Service.Effect.{Effect, same, moved, edited, created, swept, Steps}
use svforb.Connection.Service.Requests.{Request, handle_all, handle_all-keeps, handle-Effect}

-- The Connection is still there, of the same sites and organisations, with a status that allowed
-- moves lead to.
pub record Follows (c c' : Connection) : Type 0 where
  pub moves : Moves c.status c'.status
  pub same_donor : c'.donor_site_id ≡ c.donor_site_id
  pub same_receiver : c'.receiver_site_id ≡ c.receiver_site_id
  pub same_donor_org : c'.donor_org_id ≡ c.donor_org_id
  pub same_receiver_org : c'.receiver_org_id ≡ c.receiver_org_id

abbrev pub Continues : ℕ → Connection → List (ℕ × Connection) → Type 0
Continues j c rows = (c' : Connection) × (lookup j rows ≡ some c') × Follows c c'

Follows-Steps : (b c d : Connection) → Follows b c → Steps c d → Follows b d
Follows-Steps b c d f s = record {
  moves = elim s.moves [
    | inl same_status ↦ rw same_status f.moves
    | inr allowed ↦ next f.moves allowed
  ];
  same_donor = s.same_donor ∙ f.same_donor;
  same_receiver = s.same_receiver ∙ f.same_receiver;
  same_donor_org = s.same_donor_org ∙ f.same_donor_org;
  same_receiver_org = s.same_receiver_org ∙ f.same_receiver_org;
}

lookup-modify_where :
    (p : Connection → Bool) (g : Connection → Connection) (j : ℕ) (rows : List (ℕ × Connection))
    {c : Connection}
    → lookup j rows ≡ some c
    → lookup j (modify_where p g rows) ≡ some (if p c then g c else c)
lookup-modify_where p g j [] e = absurd (cc)
lookup-modify_where p g j ((i, r) ∷ rows) {c} e =
    ground (arith, lookup-modify_where p g j rows {c = c})

expired_step :
    (c : Connection)
    → c.status ≡ ConnectionStatus.pending
    → Steps c (record c { status = ConnectionStatus.expired })
unfolding can_transition
expired_step c pending = record {
  moves = inr (ground arith);
  same_donor = refl;
  same_receiver = refl;
  same_donor_org = refl;
  same_receiver_org = refl;
}

Effect-Continues :
    (j : ℕ) (b : Connection) (rows rows' : List (ℕ × Connection)) {edits : Bool}
    → Effect edits rows rows'
    → Continues j b rows
    → Continues j b rows'
Effect-Continues j b rows rows' (same e) k = rw e k
Effect-Continues j b rows rows' (moved id g old found written step kept) (c, here_c, f) =
    elim (Bool-cases (id == j)) [
      | inl this_one ↦
          let is_old : old ≡ c = ground arith in
          (
            g old,
            rw written (ground (arith, lookup-modify id j g rows)),
            Follows-Steps b old (g old) (rw is_old f) step,
          )
      | inr other ↦ (c, rw written (ground (arith, lookup-modify id j g rows)), f)
    ]
Effect-Continues j b rows rows' (edited by_edit id s old found written valid) (c, here_c, f) =
    let g : Connection → Connection = λ r. record r { schedule = s } in
    elim (Bool-cases (id == j)) [
      | inl this_one ↦ (
        g c,
        rw written (ground (arith, lookup-modify id j g rows)),
        record {
          moves = f.moves;
          same_donor = f.same_donor;
          same_receiver = f.same_receiver;
          same_donor_org = f.same_donor_org;
          same_receiver_org = f.same_receiver_org;
        },
      )
      | inr other ↦ (c, rw written (ground (arith, lookup-modify id j g rows)), f)
    ]
Effect-Continues j b rows rows' (created n new e is_new) (c, here_c, f) =
    (c, rw e (lookup-append_some j n new rows here_c), f)
Effect-Continues j b rows rows' (swept p pending e) (c, here_c, f) =
    let g : Connection → Connection = λ r. record r { status = ConnectionStatus.expired } in
    let there = lookup-modify_where p g j rows here_c in
    elim (Bool-cases (p c)) [
      | inl gone ↦
          (g c, rw e (ground arith), Follows-Steps b c (g c) f (expired_step c (pending c gone)))
      | inr stays ↦ (c, rw e (ground arith), f)
    ]

-- However many requests are served, a Connection that there is stays there, between the same sites
-- and organisations, and its status has changed only by moves that `canTransition` allows.
pub handle_all-Continues :
    (intl : Intl) (rs : List Request) (db : Db) (j : ℕ) (c : Connection)
    → find j db.connections ≡ some c
    → Continues j c (handle_all intl rs db).connections.rows
handle_all-Continues intl rs db j c found =
    handle_all-keeps intl (λ d. Continues j c d.connections.rows)
      (λ r before after k e.
        Effect-Continues j c before.connections.rows after.connections.rows
          (handle-Effect intl r before after e) k)
      rs db
      (
        c,
        found,
        record {
          moves = here;
          same_donor = refl;
          same_receiver = refl;
          same_donor_org = refl;
          same_receiver_org = refl;
        },
      )
