-- ===== src/Common/Dict/Size.antt =====
-- Maps with the same entries have the same number of entries.
use mwaa_controller.Common.Tests.{if◌then◌else◌}
use mwaa_controller.Common.Equality.{◌==◌, string_eq}
use mwaa_controller.Common.Lists.{length}
use mwaa_controller.Common.Dict.{Dict, lookup, NodupKeys, SameEntries}
use Prim.Native.Nat.{suc}
use Prim.Native.String.{String}
use mathlib.Core.Path.{◌≡◌, refl, sym, ◌∙◌, ap}
use mathlib.Core.Option.{none, some}
use mathlib.Core.List.{[], ◌∷◌}
use native.Mathlib.Omega.{arith}

module _ {ℓ} {V : Type ℓ} where
  -- `delete(m, k)`
  abbrev erase : String → Dict V → Dict V
  erase k [] = []
  erase k ((j, v) ∷ d) = if k == j then d else (j, v) ∷ erase k d

  lookup-erase :
      (j k : String) (d : Dict V)
      → NodupKeys d
      → lookup j (erase k d) ≡ (if j == k then none else lookup j d)
  lookup-erase j k [] u = ground arith
  lookup-erase j k ((i, v) ∷ d) (fresh, u) = ground (arith, lookup-erase j k d u)

  erase-NodupKeys : (k : String) (d : Dict V) → NodupKeys d → NodupKeys (erase k d)
  erase-NodupKeys k [] u = tt
  erase-NodupKeys k ((i, v) ∷ d) (fresh, u) =
      ground (arith, erase-NodupKeys k d u, lookup-erase i k d u)

  length-erase :
      (k : String) (v : V) (d : Dict V) → lookup k d ≡ some v → length d ≡ suc (length (erase k d))
  length-erase k v [] h = cc
  length-erase k v ((i, w) ∷ d) h = ground (arith, length-erase k v d)

  pub length-eq_of_SameEntries :
      (d e : Dict V) → NodupKeys d → NodupKeys e → SameEntries d e → length d ≡ length e
  length-eq_of_SameEntries [] [] u w same = refl
  length-eq_of_SameEntries [] ((k, v) ∷ e) u w same = ground (arith, same k)
  length-eq_of_SameEntries ((k, v) ∷ d) e (fresh, u) w same =
      let found : lookup k e ≡ some v = ground (arith, same k) in
      ap suc (
        length-eq_of_SameEntries d (erase k e) u (erase-NodupKeys k e w)
          (λ j. ground (arith, same j, lookup-erase j k e w)))
      ∙ sym (length-erase k v e found)
