-- ===== src/Env/Resource.antt =====
-- pkg/resource/environment/resource.go and identifiers.go: the wrapper of the custom resource and
-- its identifiers. A method that changes the resource returns it.
pub mod Adoption
mod Tests
use mwaa_controller.Common.{String, Bool, true, not, Option, none, some, List}
use mwaa_controller.Common.{if◌then◌else◌, ◌==◌, string_eq, nat_eq}
use mwaa_controller.Common.Dict.{Dict, lookup}
use mwaa_controller.Api.{Environment, ObjectMeta, Condition, ResourceMetadata, Time}
use mwaa_controller.Ext.Errors.{Errors}

-- `resourceIdentifiers`
pub record ResourceIdentifiers : Type 0 where
  pub meta : Option ResourceMetadata

-- `Identifiers`
abbrev pub identifiers : Environment → ResourceIdentifiers
identifiers ko = record { meta = ko.status.ack_resource_metadata }

-- `ARN`, `OwnerAccountID` and `Region` of the identifiers
abbrev pub arn : ResourceIdentifiers → Option String
arn ri = elim ri.meta [ none ↦ none | some m ↦ m.arn ]

abbrev pub owner_account_id : ResourceIdentifiers → Option String
owner_account_id ri = elim ri.meta [ none ↦ none | some m ↦ m.owner_account_id ]

abbrev pub region : ResourceIdentifiers → Option String
region ri = elim ri.meta [ none ↦ none | some m ↦ m.region ]

-- `IsZero` of a pointer to a time
abbrev pub is_zero : Option Time → Bool
is_zero none = true
is_zero (some t) = t == 0

-- `IsBeingDeleted`
abbrev pub is_being_deleted : Environment → Bool
is_being_deleted ko = not (is_zero ko.meta.deletion_timestamp)

-- `Conditions`
abbrev pub conditions : Environment → Option (List Condition)
conditions ko = ko.status.conditions

-- `ReplaceConditions`
abbrev pub replace_conditions : Environment → Option (List Condition) → Environment
replace_conditions ko cs = record ko { status = record (ko.status) { conditions = cs } }

-- `SetObjectMeta`
abbrev pub set_object_meta : Environment → ObjectMeta → Environment
set_object_meta ko meta = record ko { meta = meta }

-- `SetStatus`
abbrev pub set_status : Environment → Environment → Environment
set_status ko desired = record ko { status = desired.status }

abbrev pub with_name : Environment → String → Environment
with_name ko name = record ko { spec = record (ko.spec) { name = some name } }

module _ (E : Errors) where
  -- `SetIdentifiers`, with the `NameOrID` of its argument: the resource afterwards, and an error.
  unfoldable pub set_identifiers : Environment → String → Environment × Option E.Error
  set_identifiers ko name_or_id =
      if name_or_id == ""
      then (ko, some E.missing_name_identifier)
      else (with_name ko name_or_id, none)

  -- `PopulateResourceFromAnnotation`
  unfoldable pub populate_resource_from_annotation :
      Environment → Dict String → Environment × Option E.Error
  populate_resource_from_annotation ko fields = elim (lookup "name" fields) [
    | none ↦ (ko, some (E.new_terminal_error (E.errorf "required field missing: name")))
    | some primary_key ↦ (with_name ko primary_key, none)
  ]
