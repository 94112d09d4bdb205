-- ===== src/Common/Errors.antt =====
-- The HTTP exceptions that the services throw, and the chain of fallible steps.
use Prim.Native.String.{String}
use mathlib.Core.Path.{◌≡◌, refl}
use mathlib.Core.Logic.{◌⊎◌, inl, inr}
use mathlib.Core.Bool.{Bool, true, false}
use mathlib.Core.Option.{Option, none, some}

-- NestJS's exception classes, with their message (without its interpolated parts), and the error
-- that the database client throws for a row that refers to one that is missing or that lacks a
-- value.
pub data Exception : Type 0 where
  bad_request forbidden not_found conflict payment_required : String → Exception
  foreign_key_violated value_missing : Exception

pub data Result {κ} (X : Type κ) : Type κ where
  err : Exception → Result X
  ok : X → Result X

-- `if (test) throw e;`
abbrev pub throw_if : Bool → Exception → Result (Unit {0})
throw_if true e = err e
throw_if false e = ok tt

module _ {κ} {X : Type κ} where
  -- `if (!x) throw e;` on a row that may be null
  abbrev pub or_throw : Option X → Exception → Result X
  or_throw none e = err e
  or_throw (some x) e = ok x

  abbrev pub is_ok : Result X → Bool
  is_ok (ok x) = true
  is_ok (err e) = false

  pub Result-cases : (r : Result X) → ((e : Exception) × (r ≡ err e)) ⊎ ((x : X) × (r ≡ ok x))
  Result-cases (ok x) = inr (x, refl)
  Result-cases (err e) = inl (e, refl)

  infixl 5 ◌>>=◌
  abbrev pub ◌>>=◌ {μ} : {Y : Type μ} → Result X → (X → Result Y) → Result Y
  err e >>= next = err e
  ok x >>= next = next x

  -- The steps of a chain that did not throw.
  pub >>=-eq-ok {μ} :
      {Y : Type μ} (first : Result X) (next : X → Result Y) {y : Y}
      → first >>= next ≡ ok y
      → (x : X) × (first ≡ ok x) × (next x ≡ ok y)
  >>=-eq-ok (err e) next thrown = cc
  >>=-eq-ok (ok x) next done = (x, refl, done)

infixl 5 ◌>>◌
abbrev pub ◌>>◌ {μ} : {Y : Type μ} → Result (Unit {0}) → Result Y → Result Y
err e >> rest = err e
ok u >> rest = rest
