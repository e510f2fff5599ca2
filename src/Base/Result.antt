-- ===== src/Base/Result.antt =====
-- A value or the error in its place, as Go's pair of results.
use mathlib.Core.Path.{◌≡◌, refl}
use mathlib.Core.Logic.{◌⊎◌, inl, inr}
use mathlib.Core.Option.{Option, none, some}

pub data Result {ℓ} (E : Type 0) (A : Type ℓ) : Type ℓ where
  ok : A → Result E A
  err : E → Result E A

pub Result-cases {ℓ} :
    {E : Type 0} {A : Type ℓ} (r : Result E A) → ((a : A) × (r ≡ ok a)) ⊎ ((e : E) × (r ≡ err e))
Result-cases (ok a) = inl (a, refl)
Result-cases (err e) = inr (e, refl)

-- The error of the first check that fails; `none` is the nil error.
abbrev pub first_of : {E : Type 0} → Option E → Option E → Option E
first_of none second = second
first_of (some e) second = some e

pub ok-inj {ℓ} : {E : Type 0} {A : Type ℓ} {a b : A} {r : Result E A} → r ≡ ok a → r ≡ ok b → a ≡ b
ok-inj h k = cc (h, k)
