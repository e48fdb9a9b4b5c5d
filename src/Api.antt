-- ===== src/Api.antt =====
-- The custom resource (apis/v1alpha1/environment.go and types.go). A pointer is an `Option`, with
-- `none` for nil; a slice or a map that may be nil is an `Option` of its elements. Fields of the
-- embedded Kubernetes and ACK types are those that the controller reads or writes.
mod Meta
pub mod Enums
mod Types
pub use Meta.*
pub use Types.*
use mwaa_controller.Common.{String, Option, List}
use mwaa_controller.Common.Dict.{Dict}
use mwaa_controller.Common.Int.{ℤ}

-- `EnvironmentSpec`
pub record EnvironmentSpec : Type 0 where
  pub airflow_configuration_options : Option (Dict (Option String))
  pub airflow_version : Option String
  pub dag_s3_path : Option String
  pub endpoint_management : Option String
  pub environment_class : Option String
  pub execution_role_arn : Option String
  pub execution_role_ref : Option ResourceRef
  pub kms_key : Option String
  pub kms_key_ref : Option ResourceRef
  pub logging_configuration : Option LoggingConfigurationInput
  pub max_webservers : Option ℤ
  pub max_workers : Option ℤ
  pub min_webservers : Option ℤ
  pub min_workers : Option ℤ
  pub name : Option String
  pub network_configuration : Option NetworkConfiguration
  pub plugins_s3_object_version : Option String
  pub plugins_s3_path : Option String
  pub requirements_s3_object_version : Option String
  pub requirements_s3_path : Option String
  pub schedulers : Option ℤ
  pub source_bucket_arn : Option String
  pub source_bucket_ref : Option ResourceRef
  pub startup_script_s3_object_version : Option String
  pub startup_script_s3_path : Option String
  pub tags : Option (Dict (Option String))
  pub webserver_access_mode : Option String
  pub weekly_maintenance_window_start : Option String

-- `EnvironmentStatus`
pub record EnvironmentStatus : Type 0 where
  pub ack_resource_metadata : Option ResourceMetadata
  pub conditions : Option (List Condition)
  pub created_at : Option Time
  pub last_update : Option LastUpdate
  pub status : Option String
  pub webserver_url : Option String

-- `Environment`
pub record Environment : Type 0 where
  pub meta : ObjectMeta
  pub spec : EnvironmentSpec
  pub status : EnvironmentStatus
