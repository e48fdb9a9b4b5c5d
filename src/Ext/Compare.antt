-- ===== src/Ext/Compare.antt =====
-- The ACK runtime's package `compare`, and `equality.Semantic` of Kubernetes.
use mwaa_controller.Common.{String, ◌≡◌, ◌↔◌, Bool, true, Option, List}
use mwaa_controller.Common.{is_some}
use mwaa_controller.Common.Dict.{Dict, SameEntries, NodupKeys}
use mwaa_controller.Common.Int.{ℤ}
use mwaa_controller.Api.{ResourceRef, Environment, LoggingConfigurationInput}
use mwaa_controller.Api.{ModuleLoggingConfigurationInput, NetworkConfiguration}
use mathlib.Core.Bool.{xor}

-- What `Delta.Add` is given beside the path: an `interface{}`, here with what it may hold.
pub data Subject : Type 0 where
  nil : Subject
  resource : Option Environment → Subject
  text : Option String → Subject
  number : Option ℤ → Subject
  flag : Option Bool → Subject
  ref : Option ResourceRef → Subject
  logging : Option LoggingConfigurationInput → Subject
  module_logging : Option ModuleLoggingConfigurationInput → Subject
  network : Option NetworkConfiguration → Subject
  texts : Option (List (Option String)) → Subject
  text_map : Option (Dict (Option String)) → Subject

-- The arguments of one `Delta.Add`.
pub record Difference : Type 0 where
  pub path : String
  pub a : Subject
  pub b : Subject

pub record Compare : Type 1 where
  pub has_nil_difference : {A : Type 0} → Option A → Option A → Bool
  pub deep_equal : Option ResourceRef → Option ResourceRef → Bool
  pub map_string_string_equal : Dict String → Dict String → Bool
  pub map_string_string_p_equal : Dict (Option String) → Dict (Option String) → Bool
  pub slice_string_p_equal : List (Option String) → List (Option String) → Bool

-- `ackcompare.Delta`
pub record Deltas : Type 1 where
  pub Delta : Type 0
  pub new_delta : Delta
  pub add : Delta → Difference → Delta
  pub different_at : Delta → String → Bool
  pub different_except : Delta → String → Bool

-- What the comparators are documented to decide.
pub record CompareIsLawful (Q : Compare) : Type 1 where
  pub nil_difference :
      {A : Type 0} (a b : Option A) → Q.has_nil_difference a b ≡ xor (is_some a) (is_some b)
  pub deep_equal_iff : (a b : Option ResourceRef) → (Q.deep_equal a b ≡ true) ↔ (a ≡ b)
  pub map_equal_iff :
      (d e : Dict String)
      → NodupKeys d
      → NodupKeys e
      → (Q.map_string_string_equal d e ≡ true) ↔ SameEntries d e
  pub map_p_equal_iff :
      (d e : Dict (Option String))
      → NodupKeys d
      → NodupKeys e
      → (Q.map_string_string_p_equal d e ≡ true) ↔ SameEntries d e
  pub slice_p_equal_refl : (xs : List (Option String)) → Q.slice_string_p_equal xs xs ≡ true
