-- ===== src/Common/Dict.antt =====
-- Go maps with string keys, as association lists. Go visits the keys in no fixed order: a theorem
-- that holds of every list holds of every order.
pub mod Size
use mwaa_controller.Common.Tests.{if◌then◌else◌, is_some}
use mwaa_controller.Common.Equality.{◌==◌, string_eq}
use mwaa_controller.Common.Lists.{All}
use Prim.Native.String.{String}
use mathlib.Core.Path.{◌≡◌, refl}
use mathlib.Core.Logic.{◌≢◌}
use mathlib.Core.Bool.{Bool, true, false, not}
use mathlib.Core.Option
use mathlib.Core.Option.{Option, none, some}
use mathlib.Core.List.{List, [], ◌∷◌}
use native.Mathlib.Omega.{arith}

-- A list of the entries.
abbrev pub Dict {κ} : Type κ → Type κ
Dict V = List (String × V)

module _ {ℓ} {V : Type ℓ} where
  -- `m[key]`, with nil for a missing key
  abbrev pub lookup : String → Dict V → Option V
  lookup key [] = none
  lookup key ((other, value) ∷ rest) = if key == other then some value else lookup key rest

  -- `_, found := m[k]`
  abbrev pub has : String → Dict V → Bool
  has k d = is_some (lookup k d)

  -- `m[key] = value`
  abbrev pub insert : String → V → Dict V → Dict V
  insert key value [] = (key, value) ∷ []
  insert key value ((other, old) ∷ rest) =
      if key == other then (key, value) ∷ rest else (other, old) ∷ insert key value rest

  -- A map holds a key once.
  abbrev pub NodupKeys : Dict V → Type ℓ
  NodupKeys [] = Unit
  NodupKeys ((k, _) ∷ d) = (lookup k d ≡ none) × NodupKeys d

  pub lookup-insert :
      (j k : String) (v : V) (d : Dict V)
      → lookup j (insert k v d) ≡ (if j == k then some v else lookup j d)
  lookup-insert j k v [] = refl
  lookup-insert j k v ((i, w) ∷ d) = ground (arith, lookup-insert j k v d)

  pub insert-NodupKeys : (k : String) (v : V) (d : Dict V) → NodupKeys d → NodupKeys (insert k v d)
  insert-NodupKeys k v [] _ = (refl, tt)
  insert-NodupKeys k v ((j, w) ∷ d) (fresh, u) =
      ground (arith, insert-NodupKeys k v d u, lookup-insert j k v d)

-- Two maps with the same entries.
abbrev pub SameEntries {ℓ} : {V : Type ℓ} → Dict V → Dict V → Type ℓ
SameEntries d e = (k : String) → lookup k d ≡ lookup k e
