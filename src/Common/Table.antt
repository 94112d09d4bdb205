-- ===== src/Common/Table.antt =====
-- A database table: rows under an autoincremented id, as the Prisma client reads and writes them.
use Prim.Native.Nat.{ℕ, suc, ◌<◌}
use mathlib.Core.Path.{◌≡◌, refl, sym}
use mathlib.Core.Logic.{◌≢◌, ◌⊎◌, inl, inr}
use mathlib.Core.Bool.{Bool}
use mathlib.Core.Option
use mathlib.Core.Option.{Option, none, some}
use mathlib.Core.List.{List, [], ◌∷◌, ◌++◌}
use native.Mathlib.Omega.{arith}
use svforb.Common.Tests.{◌==◌, if◌then◌else◌, Option-cases, Bool-cases}
use svforb.Common.Lists.{In}

pub record Table {ℓ} (R : Type ℓ) : Type ℓ where
  pub next : ℕ
  pub rows : List (ℕ × R)

module _ {ℓ} {R : Type ℓ} where
  -- `findUnique({ where: { id } })`
  abbrev pub lookup : ℕ → List (ℕ × R) → Option R
  lookup k [] = none
  lookup k ((j, r) ∷ rs) = if j == k then some r else lookup k rs

  -- `update({ where: { id }, data })`; no row of that id, no change
  abbrev pub modify : ℕ → (R → R) → List (ℕ × R) → List (ℕ × R)
  modify k f [] = []
  modify k f ((j, r) ∷ rs) = if j == k then (j, f r) ∷ rs else (j, r) ∷ modify k f rs

  -- `updateMany({ where, data })`
  abbrev pub modify_where : (R → Bool) → (R → R) → List (ℕ × R) → List (ℕ × R)
  modify_where p f [] = []
  modify_where p f ((j, r) ∷ rs) = (j, if p r then f r else r) ∷ modify_where p f rs

  abbrev pub find : ℕ → Table R → Option R
  find k t = lookup k t.rows

  abbrev pub update : ℕ → (R → R) → Table R → Table R
  update k f t = record t { rows = modify k f t.rows }

  abbrev pub update_many : (R → Bool) → (R → R) → Table R → Table R
  update_many p f t = record t { rows = modify_where p f t.rows }

  -- `create({ data })`, which hands out the next id
  abbrev pub create : R → Table R → ℕ × Table R
  create r t = (t.next, record { next = suc t.next; rows = t.rows ++ (t.next, r) ∷ [] })

  -- Every id in use has been handed out.
  abbrev pub Below : ℕ → List (ℕ × R) → Type 0
  Below n [] = Unit {0}
  Below n ((j, r) ∷ rs) = (j < n) × Below n rs

  pub lookup-modify :
      (k j : ℕ) (f : R → R) (rs : List (ℕ × R))
      → lookup j (modify k f rs) ≡ (if k == j then Option.map f (lookup j rs) else lookup j rs)
  lookup-modify k j f [] = ground arith
  lookup-modify k j f ((i, r) ∷ rs) = ground (arith, lookup-modify k j f rs)

  pub lookup-modify_self :
      (k : ℕ) (f : R → R) (rs : List (ℕ × R)) {r : R}
      → lookup k rs ≡ some r
      → lookup k (modify k f rs) ≡ some (f r)
  lookup-modify_self k f [] e = cc
  lookup-modify_self k f ((i, s) ∷ rs) {r} e = ground (arith, lookup-modify_self k f rs {r = r})

  pub lookup-modify_ne :
      (k j : ℕ) (f : R → R) (rs : List (ℕ × R)) → k ≢ j → lookup j (modify k f rs) ≡ lookup j rs
  lookup-modify_ne k j f [] h = refl
  lookup-modify_ne k j f ((i, r) ∷ rs) h = ground (arith, lookup-modify_ne k j f rs h)

  pub lookup-modify_where :
      (p : R → Bool) (j : ℕ) (f : R → R) (rs : List (ℕ × R))
      → lookup j (modify_where p f rs) ≡ Option.map (λ r. if p r then f r else r) (lookup j rs)
  lookup-modify_where p j f [] = ground arith
  lookup-modify_where p j f ((i, r) ∷ rs) = ground (arith, lookup-modify_where p j f rs)

  pub modify-missing :
      (k : ℕ) (f : R → R) (rs : List (ℕ × R)) → lookup k rs ≡ none → modify k f rs ≡ rs
  modify-missing k f [] e = refl
  modify-missing k f ((i, r) ∷ rs) e = ground (arith, modify-missing k f rs)

  pub lookup_of_Below : (n : ℕ) (rs : List (ℕ × R)) → Below n rs → lookup n rs ≡ none
  lookup_of_Below n [] h = refl
  lookup_of_Below n ((i, r) ∷ rs) h = ground (arith, lookup_of_Below n rs h.1)

  pub lookup-append_new :
      (n : ℕ) (r : R) (rs : List (ℕ × R)) → Below n rs → lookup n (rs ++ (n, r) ∷ []) ≡ some r
  lookup-append_new n r [] h = ground arith
  lookup-append_new n r ((i, s) ∷ rs) h = ground (arith, lookup-append_new n r rs h.1)

  pub lookup-append_ne :
      (n j : ℕ) (r : R) (rs : List (ℕ × R)) → n ≢ j → lookup j (rs ++ (n, r) ∷ []) ≡ lookup j rs
  lookup-append_ne n j r [] h = ground arith
  lookup-append_ne n j r ((i, s) ∷ rs) h = ground (arith, lookup-append_ne n j r rs h)

  pub lookup-append_some :
      (j n : ℕ) (new : R) (rs : List (ℕ × R)) {r : R}
      → lookup j rs ≡ some r
      → lookup j (rs ++ (n, new) ∷ []) ≡ some r
  lookup-append_some j n new [] e = absurd (cc)
  lookup-append_some j n new ((i, s) ∷ rs) {r} e =
      ground (arith, lookup-append_some j n new rs {r = r})

  -- Where a row of a changed table comes from.
  pub lookup-modify_inv :
      (k j : ℕ) (f : R → R) (rs : List (ℕ × R)) {r' : R}
      → lookup j (modify k f rs) ≡ some r'
      → (r : R) × (lookup j rs ≡ some r) × (r' ≡ (if k == j then f r else r))
  lookup-modify_inv k j f [] e = absurd (cc)
  lookup-modify_inv k j f ((i, r) ∷ rs) {r'} e = elim (Option-cases (lookup j ((i, r) ∷ rs))) [
    | inl missing ↦ absurd (ground (arith, lookup-modify k j f ((i, r) ∷ rs)))
    | inr (old, found) ↦ (old, found, ground (arith, lookup-modify k j f ((i, r) ∷ rs)))
  ]

module _ {R : Type 0} where
  pub lookup-In : (k : ℕ) (rs : List (ℕ × R)) {r : R} → lookup k rs ≡ some r → In (k, r) rs
  lookup-In k [] e = absurd (cc)
  lookup-In k ((i, s) ∷ rs) {r} e = elim (Bool-cases (i == k)) [
    | inl here ↦ inl (ground arith)
    | inr other ↦ inr (lookup-In k rs {r = r} (ground arith))
  ]

  -- Where a row of a table comes from, after an insertion and after a change.
  pub In-append :
      (row new : ℕ × R) (rs : List (ℕ × R)) → In row (rs ++ new ∷ []) → In row rs ⊎ (row ≡ new)
  In-append row new [] (inl e) = inr (sym e)
  In-append row new [] (inr h) = absurd h
  In-append row new (x ∷ rs) (inl e) = inl (inl e)
  In-append row new (x ∷ rs) (inr h) = elim (In-append row new rs h) [
    | inl old ↦ inl (inr old)
    | inr fresh ↦ inr fresh
  ]

  pub In-modify :
      (row : ℕ × R) (k : ℕ) (f : R → R) (rs : List (ℕ × R))
      → In row (modify k f rs)
      → In row rs ⊎ ((old : R) × (lookup k rs ≡ some old) × (row ≡ (k, f old)))
  In-modify row k f [] h = absurd h
  In-modify row k f ((i, s) ∷ rs) h = elim (Bool-cases (i == k)) [
    | inl here ↦ elim (rw here at h) [
      | inl e ↦ inr (s, ground arith, ground arith)
      | inr later ↦ inl (inr later)
    ]
    | inr other ↦ elim (rw other at h) [
      | inl e ↦ inl (inl e)
      | inr later ↦ elim (In-modify row k f rs later) [
        | inl old ↦ inl (inr old)
        | inr (old, e, same) ↦ inr (old, ground arith, same)
      ]
    ]
  ]
