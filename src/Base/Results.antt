-- ===== src/Base/Results.antt =====
-- Code that may raise: the value that it returns, or the exception.
use mathlib.Core.Path.{◌≡◌, refl}
use mathlib.Core.Logic.{◌⊎◌, inl, inr}
use mathlib.Core.Bool.{Bool, true, false}
use mathlib.Core.Option.{Option, none, some}
use native.Mathlib.Omega.{arith}
use semconv_graph.Base.Equality.{if◌then◌else◌}

pub data Result {ℓ} (E : Type 0) (A : Type ℓ) : Type ℓ where
  ok : A → Result E A
  err : E → Result E A

-- A statement after which the rest of the body runs, unless the statement raises.
abbrev pub ◌>>=◌ {ℓ κ} :
    {E : Type 0} {A : Type ℓ} {B : Type κ} → Result E A → (A → Result E B) → Result E B
err failure >>= rest = err failure
ok value >>= rest = rest value

abbrev pub ◌>>◌ {κ} : {E : Type 0} {B : Type κ} → Result E (Unit {0}) → Result E B → Result E B
checked >> rest = checked >>= λ _. rest

infixl 5 ◌>>=◌ ◌>>◌
module _ {E : Type 0} where
  -- `if not b: raise e`
  abbrev pub guard : Bool → E → Result E (Unit {0})
  guard holds failure = if holds then ok tt else err failure

  -- The value that a lookup found, or the exception.
  abbrev pub expect {ℓ} : {A : Type ℓ} → Option A → E → Result E A
  expect (some a) e = ok a
  expect none e = err e

  pub Result-cases {ℓ} :
      {A : Type ℓ} (r : Result E A) → ((e : E) × (r ≡ err e)) ⊎ ((a : A) × (r ≡ ok a))
  Result-cases (ok a) = inr (a, refl)
  Result-cases (err e) = inl (e, refl)

  -- A body that returned: its first statement returned, and so did the rest after it.
  pub >>=-eq-ok {ℓ κ} :
      {A : Type ℓ} {B : Type κ} (first : Result E A) (rest : A → Result E B) {returned : B}
      → (first >>= rest) ≡ ok returned
      → (value : A) × (first ≡ ok value) × (rest value ≡ ok returned)
  >>=-eq-ok first rest h = elim (Result-cases first) [
    | inl (failure, raised) ↦ absurd (ground arith)
    | inr (value, done) ↦ (value, done, ground arith)
  ]

  pub guard-eq-ok : (b : Bool) (e : E) → guard b e ≡ ok tt → b ≡ true
  guard-eq-ok true e h = refl
  guard-eq-ok false e h = cc
