-- ===== src/Env/Read/Output.antt =====
-- What `sdkFind` takes over from the response of GetEnvironment into the copy of the resource. A
-- branch `if resp.F != nil { ko.F = resp.F } else { ko.F = nil }` is the assignment `ko.F = resp.F`.
use mwaa_controller.Common.{String, ◌==◌, string_eq, Option, none, some, if◌then◌else◌, List}
use mwaa_controller.Api.{Environment, EnvironmentSpec, EnvironmentStatus, LastUpdate, UpdateError}
use mwaa_controller.Api.{LoggingConfigurationInput, ModuleLoggingConfigurationInput}
use mwaa_controller.Api.{NetworkConfiguration, ResourceMetadata}
use mwaa_controller.Ext.Sdk.{SdkEnvironment, SdkLastUpdate, SdkUpdateError, ModuleLogging, Logging}
use mwaa_controller.Ext.Sdk.{Network}
use mwaa_controller.Ext.Runtime.{Pointers}
use mwaa_controller.Env.Status.{metadata_of}
use mathlib.Core.Option

-- `if e != "" { f = aws.String(string(e)) }`
unfoldable pub enum_ptr : String → Option String
enum_ptr s = if s == "" then none else some s

-- `f11f1`
abbrev pub read_update_error : SdkUpdateError → UpdateError
read_update_error e = record { error_code = e.error_code; error_message = e.error_message }

-- `f11`
unfoldable pub read_last_update : SdkLastUpdate → LastUpdate
unfolding enum_ptr
read_last_update u = record {
  created_at = u.created_at;
  error = Option.map read_update_error u.error;
  source = u.source;
  status = enum_ptr u.status;
  worker_replacement_strategy = enum_ptr u.worker_replacement_strategy;
}

-- `f12f0` to `f12f4`
unfoldable pub read_module_logs : ModuleLogging → ModuleLoggingConfigurationInput
unfolding enum_ptr
read_module_logs l = record { enabled = l.enabled; log_level = enum_ptr l.log_level }

-- `f12`
unfoldable pub read_logging : Logging → LoggingConfigurationInput
unfolding read_module_logs
read_logging l = record {
  dag_processing_logs = Option.map read_module_logs l.dag_processing_logs;
  scheduler_logs = Option.map read_module_logs l.scheduler_logs;
  task_logs = Option.map read_module_logs l.task_logs;
  webserver_logs = Option.map read_module_logs l.webserver_logs;
  worker_logs = Option.map read_module_logs l.worker_logs;
}

-- The ARN is kept where the response has none.
abbrev pub read_arn : Option String → ResourceMetadata → ResourceMetadata
read_arn none m = m
read_arn (some arn) m = record m { arn = some arn }

-- `ko.Status` after the response is merged in.
unfoldable pub read_status : SdkEnvironment → EnvironmentStatus → EnvironmentStatus
unfolding enum_ptr read_last_update
read_status env status = record status {
  ack_resource_metadata = some (read_arn env.arn (metadata_of status.ack_resource_metadata));
  created_at = env.created_at;
  last_update = Option.map read_last_update env.last_update;
  status = enum_ptr env.status;
  webserver_url = env.webserver_url;
}

module _ (P : Pointers) where
  -- `f18`: a new struct, with no references.
  unfoldable pub read_network : Network → NetworkConfiguration
  read_network n = record {
    security_group_ids = Option.map P.string_slice n.security_group_ids;
    security_group_refs = List.[];
    subnet_ids = Option.map P.string_slice n.subnet_ids;
    subnet_refs = List.[];
  }

  -- `ko.Spec` after the response is merged in.
  unfoldable pub read_spec : SdkEnvironment → EnvironmentSpec → EnvironmentSpec
  unfolding enum_ptr read_logging read_network
  read_spec env spec = record spec {
    airflow_configuration_options = Option.map P.string_map env.airflow_configuration_options;
    airflow_version = env.airflow_version;
    dag_s3_path = env.dag_s3_path;
    endpoint_management = enum_ptr env.endpoint_management;
    environment_class = env.environment_class;
    execution_role_arn = env.execution_role_arn;
    kms_key = env.kms_key;
    logging_configuration = Option.map read_logging env.logging_configuration;
    max_webservers = env.max_webservers;
    max_workers = env.max_workers;
    min_webservers = env.min_webservers;
    min_workers = env.min_workers;
    name = env.name;
    network_configuration = Option.map read_network env.network_configuration;
    plugins_s3_object_version = env.plugins_s3_object_version;
    plugins_s3_path = env.plugins_s3_path;
    requirements_s3_object_version = env.requirements_s3_object_version;
    requirements_s3_path = env.requirements_s3_path;
    schedulers = env.schedulers;
    source_bucket_arn = env.source_bucket_arn;
    startup_script_s3_object_version = env.startup_script_s3_object_version;
    startup_script_s3_path = env.startup_script_s3_path;
    tags = Option.map P.string_map env.tags;
    webserver_access_mode = enum_ptr env.webserver_access_mode;
    weekly_maintenance_window_start = env.weekly_maintenance_window_start;
  }

  unfoldable pub set_output : SdkEnvironment → Environment → Environment
  unfolding read_spec read_status
  set_output env ko = record ko { spec = read_spec env ko.spec; status = read_status env ko.status }
