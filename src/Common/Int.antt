-- ===== src/Common/Int.antt =====
-- Go's `int64` and `int32` as integers over the native numbers.
use mwaa_controller.Common.Tests.{if◌then◌else◌}
use mwaa_controller.Common.Equality.{Eq}
use Prim.Native.Nat.{ℕ, suc, compare, Ordering, ◌+◌, ◌-◌, ◌%◌, ◌^◌, ◌≤◌}
use mathlib.Core.Path.{◌≡◌}
use mathlib.Core.Bool.{Bool, true, false}
use native.Mathlib.Decide.{ℕ_discrete}
use native.Mathlib.Omega.{arith}

abbrev pub ltb : ℕ → ℕ → Bool
ltb a b = elim (compare a b) [ Ordering.lt ↦ true | _ ↦ false ]

-- `negsuc n` is -(n + 1).
pub data ℤ : Type 0 where
  pos : ℕ → ℤ
  negsuc : ℕ → ℤ

ℤ-discrete : Discrete ℤ
ℤ-discrete = hlevel ℕ_discrete

instance unfoldable pub int_eq : Eq ℤ
unfolding ℤ-discrete
int_eq = record { dec = ℤ-discrete }

abbrev pos_part : ℤ → ℕ
pos_part (pos n) = n
pos_part (negsuc n) = 0

abbrev neg_part : ℤ → ℕ
neg_part (pos n) = 0
neg_part (negsuc n) = suc n

-- `a < b`
abbrev pub ltb_ℤ : ℤ → ℤ → Bool
ltb_ℤ a b = ltb (pos_part a + neg_part b) (pos_part b + neg_part a)

-- `math.MaxInt32` and `math.MinInt32`
abbrev pub max_int32 : ℤ
max_int32 = pos 2147483647

abbrev pub min_int32 : ℤ
min_int32 = negsuc 2147483647

-- The values that an `int32` holds.
abbrev pub InInt32 : ℤ → Type 0
InInt32 (pos n) = n ≤ 2147483647
InInt32 (negsuc n) = n ≤ 2147483647

-- The conversion `int32(x)`: the low 32 bits, in two's complement.
unfoldable pub to_int32 : ℤ → ℤ
to_int32 (pos n) = let m = n % 2 ^ 32 in if ltb m (2 ^ 31) then pos m else negsuc (2 ^ 32 - 1 - m)
to_int32 (negsuc n) =
    let m = n % 2 ^ 32 in if ltb m (2 ^ 31) then negsuc m else pos (2 ^ 32 - 1 - m)

pub to_int32-eq_self : (x : ℤ) → InInt32 x → to_int32 x ≡ x
unfolding to_int32
to_int32-eq_self (pos n) h = ground arith
to_int32-eq_self (negsuc n) h = ground arith
