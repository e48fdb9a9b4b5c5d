-- ===== src/Env/Payload.antt =====
-- `newCreateRequestPayload` and `newUpdateRequestPayload` of pkg/resource/environment/sdk.go. A
-- branch `if spec.F != nil { res.F = spec.F }` is the assignment, since the field of a new struct
-- is nil; for a field that is no pointer it is the value, or "" for nil.
pub mod Bounds
pub mod Echoes
pub mod RoundTrip
mod Tests
use mwaa_controller.Common.{String, ◌<>◌, ◌||◌, Option, none, some, List, if◌then◌else◌}
use mwaa_controller.Common.{Result, ok, err}
use mwaa_controller.Common.Results.{◌>>=◌}
use mwaa_controller.Common.Int.{ℤ, ltb_ℤ, max_int32, min_int32, to_int32}
use mwaa_controller.Api.{EnvironmentSpec, LoggingConfigurationInput}
use mwaa_controller.Api.{ModuleLoggingConfigurationInput, NetworkConfiguration}
use mwaa_controller.Ext.Errors.{Errors}
use mwaa_controller.Ext.Sdk.{CreateInput, UpdateInput, Logging, ModuleLogging, Network}
use mwaa_controller.Ext.Runtime.{Pointers, text_of}
use mathlib.Core.Option

-- `f7f0` to `f7f4`
unfoldable pub write_module_logs : ModuleLoggingConfigurationInput → ModuleLogging
write_module_logs l = record { enabled = l.enabled; log_level = text_of l.log_level }

-- `f7`
unfoldable pub write_logging : LoggingConfigurationInput → Logging
unfolding write_module_logs
write_logging l = record {
  dag_processing_logs = Option.map write_module_logs l.dag_processing_logs;
  scheduler_logs = Option.map write_module_logs l.scheduler_logs;
  task_logs = Option.map write_module_logs l.task_logs;
  webserver_logs = Option.map write_module_logs l.webserver_logs;
  worker_logs = Option.map write_module_logs l.worker_logs;
}

-- `f13`
unfoldable pub write_network : Pointers → NetworkConfiguration → Network
write_network P n = record {
  security_group_ids = Option.map P.to_string_slice n.security_group_ids;
  subnet_ids = Option.map P.to_string_slice n.subnet_ids;
}

-- `f11` of the update: the security groups only
unfoldable pub write_update_network : Pointers → NetworkConfiguration → Option (List String)
write_update_network P n = Option.map P.to_string_slice n.security_group_ids

-- The block of a field whose type in the API is `int32`.
unfoldable pub int32_field : (E : Errors) → String → Option ℤ → Result E.Error (Option ℤ)
unfolding to_int32
int32_field E field none = ok none
int32_field E field (some x) =
    if ltb_ℤ max_int32 x || ltb_ℤ x min_int32
    then err (E.errorf ("error: field " <> (field <> " is of type int32")))
    else ok (some (to_int32 x))

module _ (E : Errors) (P : Pointers) where
  -- `newCreateRequestPayload`
  unfoldable pub new_create_request_payload : EnvironmentSpec → Result E.Error CreateInput
  new_create_request_payload spec = do
    max_webservers ← int32_field E "MaxWebservers" spec.max_webservers
    max_workers ← int32_field E "MaxWorkers" spec.max_workers
    min_webservers ← int32_field E "MinWebservers" spec.min_webservers
    min_workers ← int32_field E "MinWorkers" spec.min_workers
    schedulers ← int32_field E "Schedulers" spec.schedulers
    ok (record {
      airflow_configuration_options = Option.map P.to_string_map spec.airflow_configuration_options;
      airflow_version = spec.airflow_version;
      dag_s3_path = spec.dag_s3_path;
      endpoint_management = text_of spec.endpoint_management;
      environment_class = spec.environment_class;
      execution_role_arn = spec.execution_role_arn;
      kms_key = spec.kms_key;
      logging_configuration = Option.map write_logging spec.logging_configuration;
      max_webservers = max_webservers;
      max_workers = max_workers;
      min_webservers = min_webservers;
      min_workers = min_workers;
      name = spec.name;
      network_configuration = Option.map (write_network P) spec.network_configuration;
      plugins_s3_object_version = spec.plugins_s3_object_version;
      plugins_s3_path = spec.plugins_s3_path;
      requirements_s3_object_version = spec.requirements_s3_object_version;
      requirements_s3_path = spec.requirements_s3_path;
      schedulers = schedulers;
      source_bucket_arn = spec.source_bucket_arn;
      startup_script_s3_object_version = spec.startup_script_s3_object_version;
      startup_script_s3_path = spec.startup_script_s3_path;
      tags = Option.map P.to_string_map spec.tags;
      webserver_access_mode = text_of spec.webserver_access_mode;
      weekly_maintenance_window_start = spec.weekly_maintenance_window_start;
    })

  -- `newUpdateRequestPayload`; it does not read the delta.
  unfoldable pub new_update_request_payload : EnvironmentSpec → Result E.Error UpdateInput
  new_update_request_payload spec = do
    max_webservers ← int32_field E "MaxWebservers" spec.max_webservers
    max_workers ← int32_field E "MaxWorkers" spec.max_workers
    min_webservers ← int32_field E "MinWebservers" spec.min_webservers
    min_workers ← int32_field E "MinWorkers" spec.min_workers
    schedulers ← int32_field E "Schedulers" spec.schedulers
    ok (record {
      airflow_configuration_options = Option.map P.to_string_map spec.airflow_configuration_options;
      airflow_version = spec.airflow_version;
      dag_s3_path = spec.dag_s3_path;
      environment_class = spec.environment_class;
      execution_role_arn = spec.execution_role_arn;
      logging_configuration = Option.map write_logging spec.logging_configuration;
      max_webservers = max_webservers;
      max_workers = max_workers;
      min_webservers = min_webservers;
      min_workers = min_workers;
      name = spec.name;
      network_configuration = Option.map (write_update_network P) spec.network_configuration;
      plugins_s3_object_version = spec.plugins_s3_object_version;
      plugins_s3_path = spec.plugins_s3_path;
      requirements_s3_object_version = spec.requirements_s3_object_version;
      requirements_s3_path = spec.requirements_s3_path;
      schedulers = schedulers;
      source_bucket_arn = spec.source_bucket_arn;
      startup_script_s3_object_version = spec.startup_script_s3_object_version;
      startup_script_s3_path = spec.startup_script_s3_path;
      webserver_access_mode = text_of spec.webserver_access_mode;
      weekly_maintenance_window_start = spec.weekly_maintenance_window_start;
    })
