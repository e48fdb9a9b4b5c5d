-- ===== src/Common/Equality.antt =====
-- Go's `==` on the types whose values the controller compares.
use Prim.Native.String.{String}
use mathlib.Core.Path.{◌≡◌, refl}
use mathlib.Core.Logic.{ite, dite, ◌↔◌}
use mathlib.Core.Bool.{Bool, true, false, ◌||◌, Bool-discrete}
use mathlib.Core.List.{List, [], ◌∷◌}
use native.Mathlib.Omega.{arith}
use Prim.Native.Nat.{ℕ}
use native.Mathlib.Decide.{ℕ_discrete}
use text.Mathlib.Text
use text.Mathlib.TextEquality.{eq_iff}

-- The types that `==` compares.
pub record Eq {ℓ} (X : Type ℓ) : Type ℓ where
  pub dec : Discrete X

infix 50 ◌==◌
-- The test of the comparison.
abbrev pub ◌==◌ {ℓ} : {X : Type ℓ} ⦃comparable : Eq X⦄ → X → X → Bool
◌==◌ ⦃comparable⦄ a b = ite (comparable.dec a b) true false

-- Shut in proofs, where a split on `s == t` yields the equation or its negation.
instance unfoldable pub string_eq : Eq String
string_eq = record {
  dec = λ s t.
      dite (Bool-discrete (Text.◌==◌ s t) true) (λ same. yes ((eq_iff s t).0 same))
        (λ differ. no (λ p. differ ((eq_iff s t).1 p)));
}

instance abbrev pub bool_eq : Eq Bool
bool_eq = record { dec = Bool-discrete }

module _ {ℓ} {A : Type ℓ} ⦃e : Eq A⦄ where
  pub ==_iff : (a b : A) → (a == b ≡ true) ↔ (a ≡ b)
  ==_iff a b = ground arith

  pub ==_refl : (a : A) → a == a ≡ true
  ==_refl a = (==_iff a a).1 refl

  pub ==_ne : (a b : A) → a == b ≡ false → ¬ (a ≡ b)
  ==_ne a b h p = ground (arith, (==_iff a b).1 p)

  -- `slices.Contains`
  abbrev pub contains : List A → A → Bool
  contains [] a = false
  contains (x ∷ xs) a = a == x || contains xs a

instance unfoldable pub nat_eq : Eq ℕ
unfolding ℕ_discrete
nat_eq = record { dec = ℕ_discrete }
