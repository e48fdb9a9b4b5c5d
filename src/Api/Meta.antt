-- ===== src/Api/Meta.antt =====
-- The parts of the Kubernetes and ACK runtime types that the custom resource embeds.
use mwaa_controller.Common.{ℕ, String, Bool, true, false, Option, List}
use mwaa_controller.Common.Dict.{Dict}

-- `metav1.Time`, with 0 for the zero time.
abbrev pub Time : Type 0
Time = ℕ

-- `metav1.ObjectMeta`
pub record ObjectMeta : Type 0 where
  pub namespace : String
  pub finalizers : List String
  pub annotations : Option (Dict String)
  pub deletion_timestamp : Option Time

-- `AWSResourceReference`
pub record RefFrom : Type 0 where
  pub name : Option String
  pub namespace : Option String

-- `AWSResourceReferenceWrapper`
pub record ResourceRef : Type 0 where
  pub from : Option RefFrom

-- `ResourceMetadata`
pub record ResourceMetadata : Type 0 where
  pub arn : Option String
  pub owner_account_id : Option String
  pub region : Option String

-- `ConditionType`; every other type is `other` with its name.
pub data ConditionType : Type 0 where
  terminal recoverable resource_synced : ConditionType
  other : String → ConditionType

abbrev pub is_terminal : ConditionType → Bool
is_terminal terminal = true
is_terminal _ = false

abbrev pub is_recoverable : ConditionType → Bool
is_recoverable recoverable = true
is_recoverable _ = false

abbrev pub is_resource_synced : ConditionType → Bool
is_resource_synced resource_synced = true
is_resource_synced _ = false

-- `corev1.ConditionStatus`
pub data ConditionStatus : Type 0 where
  status_true status_false status_unknown : ConditionStatus

abbrev pub is_true : ConditionStatus → Bool
is_true status_true = true
is_true _ = false

-- `Condition`
pub record Condition : Type 0 where
  pub kind : ConditionType
  pub status : ConditionStatus
  pub message : Option String
  pub reason : Option String
