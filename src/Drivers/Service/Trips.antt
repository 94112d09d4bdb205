-- ===== src/Drivers/Service/Trips.antt =====
-- The life of a driver pickup under the requests to both services.
use svforb.Common.{
  ℕ, ◌≡◌, refl, ◌∙◌, Bool, true, false, List, some, ok, arith, ◌==◌, inl, inr, Bool-cases, ◌⊎◌,
}
use svforb.Common.Table.{find, lookup, modify, lookup-modify, create, lookup-append_some}
use svforb.Prisma.{DriverPickupStatus, assigned, accepted, arrived, pickup_status_eq}
use svforb.Store.{DriverPickup, Db}
use svforb.Drivers.Effect.{Effect, same, changed, created, Steps, may_step}
use svforb.Drivers.Effect.Requests.{handle-Effect}
use svforb.Drivers.Service.{Request, handle, handle_all, handle_all-keeps}

-- The statuses that a pickup may have later.
pub may_become : DriverPickupStatus → DriverPickupStatus → Bool
may_become assigned s = true
may_become DriverPickupStatus.collected s = pickup_status_eq s DriverPickupStatus.collected
may_become DriverPickupStatus.cancelled s = pickup_status_eq s DriverPickupStatus.cancelled
may_become under_way assigned = false
may_become under_way s = true

may_become_refl : (s : DriverPickupStatus) → may_become s s ≡ true
unfolding may_become
may_become_refl s = ground arith

may_become-may_step :
    (s t u : DriverPickupStatus)
    → may_become s t ≡ true
    → may_step t u ≡ true
    → may_become s u ≡ true
unfolding may_become may_step
may_become-may_step s t u h k = ground arith

-- A pickup later on: of the same driver, claim and listing, with a status it may have by then.
pub record Follows (p p' : DriverPickup) : Type 0 where
  pub status : may_become p.status p'.status ≡ true
  pub same_driver : p'.driver_id ≡ p.driver_id
  pub same_claim : p'.claim_id ≡ p.claim_id
  pub same_listing : p'.listing_id ≡ p.listing_id

Follows-refl : (p : DriverPickup) → Follows p p
Follows-refl p = record {
  status = may_become_refl p.status;
  same_driver = refl;
  same_claim = refl;
  same_listing = refl;
}

Follows-Steps : (p q r : DriverPickup) → Follows p q → Steps q r → Follows p r
Follows-Steps p q r f s = record {
  status = may_become-may_step p.status q.status r.status f.status s.status;
  same_driver = s.same_driver ∙ f.same_driver;
  same_claim = s.same_claim ∙ f.same_claim;
  same_listing = s.same_listing ∙ f.same_listing;
}

-- The pickup is still there, and follows from what it was.
abbrev pub Persists : ℕ → DriverPickup → Db → Type 0
Persists j p db = (p' : DriverPickup) × (find j db.pickups ≡ some p') × Follows p p'

Effect-Persists :
    (j : ℕ) (p : DriverPickup) (db db' : Db) → Effect db db' → Persists j p db → Persists j p db'
Effect-Persists j p db db' (same e) (q, found, f) = (q, rw e found, f)
Effect-Persists j p db db' (changed id g old here written next step settles) (q, found, f) =
    elim (Bool-cases (id == j)) [
      | inl this_one ↦
          let is_old : old ≡ q = ground arith in
          (
            g old,
            rw written (ground (arith, lookup-modify id j g db.pickups.rows)),
            Follows-Steps p old (g old) (rw is_old f) step,
          )
      | inr other ↦ (q, rw written (ground (arith, lookup-modify id j g db.pickups.rows)), f)
    ]
Effect-Persists j p db db' (created new free is_new e) (q, found, f) =
    (q, rw e (lookup-append_some j db.pickups.next new db.pickups.rows found), f)

-- However many requests either service serves, a pickup that there is stays there, of the same
-- driver, claim and listing. It is never assigned again once it is not, and once it is collected
-- or cancelled it stays so.
pub handle_all-Persists :
    (rs : List Request) (db : Db) (j : ℕ) (p : DriverPickup)
    → find j db.pickups ≡ some p
    → Persists j p (handle_all rs db)
handle_all-Persists rs db j p found =
    handle_all-keeps (Persists j p)
      (λ r before after kept h.
        Effect-Persists j p before after (handle-Effect r before after h) kept)
      rs db (p, found, Follows-refl p)

-- A status that a request sets: an assigned pickup is only accepted or cancelled, and only an
-- arrived one is collected.
abbrev pub IsStep : DriverPickupStatus → DriverPickupStatus → Type 0
IsStep s t =
    (t ≡ s)
    ⊎ (((s ≡ assigned) → (t ≡ accepted) ⊎ (t ≡ DriverPickupStatus.cancelled))
        × ((t ≡ DriverPickupStatus.collected) → s ≡ arrived))

may_step-IsStep : (s t : DriverPickupStatus) → may_step s t ≡ true → IsStep s t
unfolding may_step
may_step-IsStep assigned assigned h = inl refl
may_step-IsStep assigned accepted h = inr ((λ e. inl refl), (λ e. absurd (cc)))
may_step-IsStep assigned DriverPickupStatus.cancelled h = inr ((λ e. inr refl), (λ e. absurd (cc)))
may_step-IsStep assigned t h = absurd (cc)
may_step-IsStep arrived t h = inr ((λ e. absurd (cc)), (λ e. refl))
may_step-IsStep DriverPickupStatus.collected t h = inl (ground arith)
may_step-IsStep DriverPickupStatus.cancelled t h = inl (ground arith)
may_step-IsStep s t h = inr ((λ e. absurd (cc)), (λ e. ground arith))

-- If a request succeeds, then a pickup that had been assigned is still assigned, accepted or
-- cancelled after it, and one that has become collected had arrived.
pub handle-IsStep :
    (r : Request) (db db' : Db) (j : ℕ) {p p' : DriverPickup}
    → handle r db ≡ ok db'
    → find j db.pickups ≡ some p
    → find j db'.pickups ≡ some p'
    → IsStep p.status p'.status
handle-IsStep r db db' j {p} {p'} h found found' = elim (handle-Effect r db db' h) [
  | same e ↦ inl (let now : find j db.pickups ≡ some p' = rw (← e) found' in ground arith)
  | changed id g old here written next step settles ↦
      let now : lookup j (modify id g db.pickups.rows) ≡ some p' = rw (← written) found' in
      elim (Bool-cases (id == j)) [
        | inl this_one ↦
            let is_old : old ≡ p = ground arith in
            let is_new : g old ≡ p' = ground (arith, lookup-modify id j g db.pickups.rows) in
            rw (← is_old, ← is_new) (may_step-IsStep old.status (g old).status step.status)
        | inr other ↦ inl (ground (arith, lookup-modify id j g db.pickups.rows))
      ]
  | created new free is_new e ↦ inl (
      let now : find j (create new db.pickups).1 ≡ some p' = rw e at found' in
      ground (arith, lookup-append_some j db.pickups.next new db.pickups.rows {r = p}))
]
