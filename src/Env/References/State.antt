-- ===== src/Env/References/State.antt =====
-- `getReferencedResourceState_…` of pkg/resource/environment/references.go, for each kind of resource
-- that a spec refers to.
use mwaa_controller.Common.{String, not, Option, none, some}
use mwaa_controller.Common.{if◌then◌else◌, string_eq, Result, ok, err}
use mwaa_controller.Api.{is_terminal, is_resource_synced}
use mwaa_controller.Ext.Errors.{Errors}
use mwaa_controller.Ext.Kubernetes.{Referenced}
use mwaa_controller.Env.Status.{is_raised}

-- `Status.ACKResourceMetadata.ARN`
abbrev pub target_arn : Referenced → Option String
target_arn o = elim o.ack_resource_metadata [ none ↦ none | some m ↦ m.arn ]

abbrev pub target_id : Referenced → Option String
target_id o = o.id

module _ (E : Errors) where
  -- `getReferencedResourceState_…`, from the answer of the reader on, with the target's value
  -- where there is no error.
  unfoldable pub referenced_state :
      String
      → String
      → (Referenced → Option String)
      → String
      → String
      → Result E.Error Referenced
      → Result E.Error String
  referenced_state kind field target namespace name (err e) = err e
  referenced_state kind field target namespace name (ok obj) =
      if is_raised is_terminal obj.conditions
      then err (E.reference_terminal_for kind namespace name)
      else if not (is_raised is_resource_synced obj.conditions)
      then err (E.reference_not_synced_for kind namespace name)
      else elim (target obj) [
        | none ↦ err (E.reference_missing_target_field_for kind namespace name field)
        | some value ↦ ok value
      ]

  abbrev pub StateOf : Type 0
  StateOf = String → String → Result E.Error Referenced → Result E.Error String

  -- `getReferencedResourceState_Role`
  abbrev pub role_state : StateOf
  role_state = referenced_state "Role" "Status.ACKResourceMetadata.ARN" target_arn

  -- `getReferencedResourceState_Key`
  abbrev pub key_state : StateOf
  key_state = referenced_state "Key" "Status.ACKResourceMetadata.ARN" target_arn

  -- `getReferencedResourceState_SecurityGroup`
  abbrev pub security_group_state : StateOf
  security_group_state = referenced_state "SecurityGroup" "Status.ID" target_id

  -- `getReferencedResourceState_Subnet`
  abbrev pub subnet_state : StateOf
  subnet_state = referenced_state "Subnet" "Status.SubnetID" target_id

  -- `getReferencedResourceState_Bucket`
  abbrev pub bucket_state : StateOf
  bucket_state = referenced_state "Bucket" "Status.ACKResourceMetadata.ARN" target_arn
