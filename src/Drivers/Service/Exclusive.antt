-- ===== src/Drivers/Service/Exclusive.antt =====
-- A claim has at most one driver under way.
use svforb.Common.{
  ℕ, ◌≡◌, refl, false, ◌&&◌, List, ◌∷◌, [], ◌++◌, some, arith, ◌==◌, ◌+◌, ◌≤◌, if◌then◌else◌,
}
use svforb.Common.Table.{lookup, modify}
use svforb.Store.{DriverPickup, Db}
use svforb.Claims.Lifecycle.{is_active_pickup, has_active_pickup}
use svforb.Drivers.Effect.{Effect, same, changed, created, Steps, may_step}
use svforb.Drivers.Effect.Requests.{handle-Effect}
use svforb.Drivers.Service.{Request, handle_all, handle_all-keeps}

-- How many pickups of a claim are under way.
abbrev weight : ℕ → DriverPickup → ℕ
weight claim p = if p.claim_id == claim && is_active_pickup p.status then 1 else 0

unfoldable pub active_count : ℕ → List (ℕ × DriverPickup) → ℕ
active_count claim [] = 0
active_count claim ((i, p) ∷ rows) = weight claim p + active_count claim rows

active_count-none :
    (claim : ℕ) (rows : List (ℕ × DriverPickup))
    → has_active_pickup claim rows ≡ false
    → active_count claim rows ≡ 0
unfolding active_count has_active_pickup
active_count-none claim [] h = refl
active_count-none claim (row ∷ rows) h = ground (arith, active_count-none claim rows)

active_count-append :
    (claim n : ℕ) (new : DriverPickup) (rows : List (ℕ × DriverPickup))
    → active_count claim (rows ++ (n, new) ∷ []) ≡ active_count claim rows + weight claim new
unfolding active_count
active_count-append claim n new [] = ground arith
active_count-append claim n new (row ∷ rows) = omega (arith, active_count-append claim n new rows)

active_count-modify :
    (claim id : ℕ) (g : DriverPickup → DriverPickup) (rows : List (ℕ × DriverPickup))
    {old : DriverPickup}
    → lookup id rows ≡ some old
    → active_count claim (modify id g rows) + weight claim old
      ≡ active_count claim rows + weight claim (g old)
unfolding active_count
active_count-modify claim id g [] e = absurd (cc)
active_count-modify claim id g ((i, p) ∷ rows) {old} e =
    ground (arith, active_count-modify claim id g rows {old = old})

-- A request never makes a pickup active that is not.
weight-Steps : (claim : ℕ) (p p' : DriverPickup) → Steps p p' → weight claim p' ≤ weight claim p
unfolding may_step
weight-Steps claim p p' step =
    let status = step.status in let same_claim = step.same_claim in ground arith

-- Each claim has at most one pickup that is under way.
abbrev pub IsExclusive : Db → Type 0
IsExclusive db = (claim : ℕ) → active_count claim db.pickups.rows ≤ 1

Effect-IsExclusive : (db db' : Db) → Effect db db' → IsExclusive db → IsExclusive db'
Effect-IsExclusive db db' (same e) x claim = rw e (x claim)
Effect-IsExclusive db db' (changed id g old here written next step settles) x claim = rw written (
    omega (
      arith,
      x claim,
      active_count-modify claim id g db.pickups.rows here,
      weight-Steps claim old (g old) step,
    ))
Effect-IsExclusive db db' (created new free is_new e) x claim = rw e (
    ground (
      arith,
      x claim,
      active_count-append claim db.pickups.next new db.pickups.rows,
      active_count-none claim db.pickups.rows,
    ))

-- However many requests either service serves one after the other, a claim has at most one driver
-- pickup under way (assigned, accepted, on its way or arrived), if that holds before.
pub handle_all-IsExclusive :
    (rs : List Request) (db : Db) → IsExclusive db → IsExclusive (handle_all rs db)
handle_all-IsExclusive =
    handle_all-keeps IsExclusive
      (λ r db db' x h. Effect-IsExclusive db db' (handle-Effect r db db' h) x)
