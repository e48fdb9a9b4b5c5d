-- ===== src/Ext/Kubernetes.antt =====
-- The reader of Kubernetes objects, and what the controller reads of the resources of the other
-- controllers that a reference may name: a role, a key, a security group, a subnet or a bucket.
use mwaa_controller.Common.{String, Option, List, Result}
use mwaa_controller.Api.{Condition, ResourceMetadata}
use mwaa_controller.Ext.Errors.{Errors}

-- The status of such a resource. `id` is `Status.ID` of a security group and `Status.SubnetID` of
-- a subnet.
pub record Referenced : Type 0 where
  pub conditions : List Condition
  pub ack_resource_metadata : Option ResourceMetadata
  pub id : Option String

-- `apiReader.Get`, by the kind, the namespace and the name; reading changes nothing.
pub record Reader (E : Errors) : Type 0 where
  pub get : String → String → String → Result E.Error Referenced
