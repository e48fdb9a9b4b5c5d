-- ===== src/Ext/Sdk.antt =====
-- The MWAA client of aws-sdk-go-v2: the structs that the controller fills and reads, with the
-- fields that it uses, and the calls. A call reads and changes a `World` that only the service
-- knows. An enumeration of the SDK is a string type, with "" where it is not set.
use mwaa_controller.Common.{String, Bool, Option, List, Result}
use mwaa_controller.Common.Dict.{Dict}
use mwaa_controller.Common.Int.{ℤ}
use mwaa_controller.Api.{Time}
use mwaa_controller.Ext.Errors.{Errors}

-- `types.ModuleLoggingConfiguration` and `types.ModuleLoggingConfigurationInput`
pub record ModuleLogging : Type 0 where
  pub enabled : Option Bool
  pub log_level : String

-- `types.LoggingConfiguration` and `types.LoggingConfigurationInput`
pub record Logging : Type 0 where
  pub dag_processing_logs : Option ModuleLogging
  pub scheduler_logs : Option ModuleLogging
  pub task_logs : Option ModuleLogging
  pub webserver_logs : Option ModuleLogging
  pub worker_logs : Option ModuleLogging

-- `types.NetworkConfiguration`
pub record Network : Type 0 where
  pub security_group_ids : Option (List String)
  pub subnet_ids : Option (List String)

-- `types.UpdateError`
pub record SdkUpdateError : Type 0 where
  pub error_code : Option String
  pub error_message : Option String

-- `types.LastUpdate`
pub record SdkLastUpdate : Type 0 where
  pub created_at : Option Time
  pub error : Option SdkUpdateError
  pub source : Option String
  pub status : String
  pub worker_replacement_strategy : String

-- `types.Environment`, which GetEnvironment returns
pub record SdkEnvironment : Type 0 where
  pub airflow_configuration_options : Option (Dict String)
  pub airflow_version : Option String
  pub arn : Option String
  pub created_at : Option Time
  pub dag_s3_path : Option String
  pub endpoint_management : String
  pub environment_class : Option String
  pub execution_role_arn : Option String
  pub kms_key : Option String
  pub last_update : Option SdkLastUpdate
  pub logging_configuration : Option Logging
  pub max_webservers : Option ℤ
  pub max_workers : Option ℤ
  pub min_webservers : Option ℤ
  pub min_workers : Option ℤ
  pub name : Option String
  pub network_configuration : Option Network
  pub plugins_s3_object_version : Option String
  pub plugins_s3_path : Option String
  pub requirements_s3_object_version : Option String
  pub requirements_s3_path : Option String
  pub schedulers : Option ℤ
  pub source_bucket_arn : Option String
  pub startup_script_s3_object_version : Option String
  pub startup_script_s3_path : Option String
  pub status : String
  pub tags : Option (Dict String)
  pub webserver_access_mode : String
  pub webserver_url : Option String
  pub weekly_maintenance_window_start : Option String

-- `CreateEnvironmentInput`
pub record CreateInput : Type 0 where
  pub airflow_configuration_options : Option (Dict String)
  pub airflow_version : Option String
  pub dag_s3_path : Option String
  pub endpoint_management : String
  pub environment_class : Option String
  pub execution_role_arn : Option String
  pub kms_key : Option String
  pub logging_configuration : Option Logging
  pub max_webservers : Option ℤ
  pub max_workers : Option ℤ
  pub min_webservers : Option ℤ
  pub min_workers : Option ℤ
  pub name : Option String
  pub network_configuration : Option Network
  pub plugins_s3_object_version : Option String
  pub plugins_s3_path : Option String
  pub requirements_s3_object_version : Option String
  pub requirements_s3_path : Option String
  pub schedulers : Option ℤ
  pub source_bucket_arn : Option String
  pub startup_script_s3_object_version : Option String
  pub startup_script_s3_path : Option String
  pub tags : Option (Dict String)
  pub webserver_access_mode : String
  pub weekly_maintenance_window_start : Option String

-- `UpdateEnvironmentInput`; its network configuration has security groups only.
pub record UpdateInput : Type 0 where
  pub airflow_configuration_options : Option (Dict String)
  pub airflow_version : Option String
  pub dag_s3_path : Option String
  pub environment_class : Option String
  pub execution_role_arn : Option String
  pub logging_configuration : Option Logging
  pub max_webservers : Option ℤ
  pub max_workers : Option ℤ
  pub min_webservers : Option ℤ
  pub min_workers : Option ℤ
  pub name : Option String
  pub network_configuration : Option (Option (List String))
  pub plugins_s3_object_version : Option String
  pub plugins_s3_path : Option String
  pub requirements_s3_object_version : Option String
  pub requirements_s3_path : Option String
  pub schedulers : Option ℤ
  pub source_bucket_arn : Option String
  pub startup_script_s3_object_version : Option String
  pub startup_script_s3_path : Option String
  pub webserver_access_mode : String
  pub weekly_maintenance_window_start : Option String

-- The calls. GetEnvironment and DeleteEnvironment take the name, a create or an update answers
-- with the ARN, TagResource and UntagResource take the ARN and what to set or to remove.
pub record Client (E : Errors) : Type 1 where
  pub World : Type 0
  pub get_environment : Option String → World → Result E.Error (Option SdkEnvironment) × World
  pub create_environment : CreateInput → World → Result E.Error (Option String) × World
  pub update_environment : UpdateInput → World → Result E.Error (Option String) × World
  pub delete_environment : Option String → World → Result E.Error (Unit {0}) × World
  pub tag_resource : String → Dict String → World → Result E.Error (Unit {0}) × World
  pub untag_resource : String → List String → World → Result E.Error (Unit {0}) × World
