-- ===== src/Common/Results.antt =====
-- A value and an `error` of which one is nil, and the early return `if err != nil`.
use mathlib.Core.Path.{◌≡◌, refl}
use mathlib.Core.Logic.{◌⊎◌, inl, inr}

pub data Result (X Y : Type 0) : Type 0 where
  ok : Y → Result X Y
  err : X → Result X Y

infixl 6 ◌>>=◌
-- What follows the early return.
abbrev pub ◌>>=◌ : {X Y Z : Type 0} → Result X Y → (Y → Result X Z) → Result X Z
answer >>= rest = elim answer [ err e ↦ err e | ok value ↦ rest value ]

pub Result-cases :
    {X Y : Type 0} (r : Result X Y) → ((e : X) × (r ≡ err e)) ⊎ ((y : Y) × (r ≡ ok y))
Result-cases (ok y) = inr (y, refl)
Result-cases (err e) = inl (e, refl)
