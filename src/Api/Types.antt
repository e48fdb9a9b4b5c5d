-- ===== src/Api/Types.antt =====
-- apis/v1alpha1/types.go: the structs inside the spec and the status.
use mwaa_controller.Common.{String, Bool, Option, List}
use mwaa_controller.Api.Meta.{Time, ResourceRef}

-- `UpdateError`
pub record UpdateError : Type 0 where
  pub error_code : Option String
  pub error_message : Option String

-- `LastUpdate`
pub record LastUpdate : Type 0 where
  pub created_at : Option Time
  pub error : Option UpdateError
  pub source : Option String
  pub status : Option String
  pub worker_replacement_strategy : Option String

-- `ModuleLoggingConfigurationInput`
pub record ModuleLoggingConfigurationInput : Type 0 where
  pub enabled : Option Bool
  pub log_level : Option String

-- `LoggingConfigurationInput`
pub record LoggingConfigurationInput : Type 0 where
  pub dag_processing_logs : Option ModuleLoggingConfigurationInput
  pub scheduler_logs : Option ModuleLoggingConfigurationInput
  pub task_logs : Option ModuleLoggingConfigurationInput
  pub webserver_logs : Option ModuleLoggingConfigurationInput
  pub worker_logs : Option ModuleLoggingConfigurationInput

-- `NetworkConfiguration`
pub record NetworkConfiguration : Type 0 where
  pub security_group_ids : Option (List (Option String))
  pub security_group_refs : List (Option ResourceRef)
  pub subnet_ids : Option (List (Option String))
  pub subnet_refs : List (Option ResourceRef)
