-- ===== src/Ext/Runtime.antt =====
-- The ACK runtime's packages `condition` and `tags`, and the string and map helpers of `aws`.
use mwaa_controller.Common.{String, ◌≡◌, true, Option, none, some, List, All}
use mwaa_controller.Common.{if◌then◌else◌, is_some}
use mwaa_controller.Common.Dict.{Dict, lookup, NodupKeys}
use mwaa_controller.Api.{Condition, ConditionStatus, Environment}
use mathlib.Core.Option

-- `ackcondition.SetSynced` and `SetLateInitialized`, on the conditions of the resource: they take
-- the status, the message and the reason.
pub record Conditions : Type 0 where
  pub set_synced : List Condition → ConditionStatus → Option String → Option String → List Condition
  pub set_late_initialized :
      List Condition → ConditionStatus → Option String → Option String → List Condition

-- `acktags.Merge`, and `ackrt.GetDefaultTags` with the configuration and the controller's metadata
-- already given.
pub record TagTools : Type 0 where
  pub merge : Dict String → Dict String → Dict String
  pub default_tags : Environment → Dict String

-- `Merge` keeps the entries of both, and the first map's where both have a key; its result is a
-- map.
pub record TagToolsIsLawful (T : TagTools) : Type 0 where
  pub lookup-merge :
      (k : String) (a b : Dict String)
      → lookup k (T.merge a b) ≡ (if is_some (lookup k a) then lookup k a else lookup k b)
  pub merge-NodupKeys : (a b : Dict String) → NodupKeys a → NodupKeys (T.merge a b)

-- `aws.StringMap`, `aws.ToStringMap`, `aws.StringSlice` and `aws.ToStringSlice`
pub record Pointers : Type 0 where
  pub string_map : Dict String → Dict (Option String)
  pub to_string_map : Dict (Option String) → Dict String
  pub string_slice : List String → List (Option String)
  pub to_string_slice : List (Option String) → List String

-- `*p`, and "" for nil
abbrev pub text_of : Option String → String
text_of none = ""
text_of (some s) = s

pub record PointersIsLawful (P : Pointers) : Type 0 where
  pub lookup-string_map :
      (k : String) (d : Dict String) → lookup k (P.string_map d) ≡ Option.map some (lookup k d)
  pub lookup-to_string_map :
      (k : String) (d : Dict (Option String))
      → lookup k (P.to_string_map d) ≡ Option.map text_of (lookup k d)
  pub string_map-NodupKeys : (d : Dict String) → NodupKeys d → NodupKeys (P.string_map d)
  pub to_string_map-NodupKeys :
      (d : Dict (Option String)) → NodupKeys d → NodupKeys (P.to_string_map d)
  pub string_slice_back :
      (xs : List (Option String))
      → All (λ x. is_some x ≡ true) xs
      → P.string_slice (P.to_string_slice xs) ≡ xs
