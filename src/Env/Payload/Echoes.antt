-- ===== src/Env/Payload/Echoes.antt =====
-- The answer of the service describes the environment with the values of a request.
use mwaa_controller.Common.{String, ◌≡◌, ◌≢◌, refl, true, Option, none, some}
use mwaa_controller.Common.{List, elements, All, is_some, string_eq}
use mwaa_controller.Common.Dict.{lookup}
use mwaa_controller.Api.{EnvironmentSpec, LoggingConfigurationInput, NetworkConfiguration}
use mwaa_controller.Api.{ModuleLoggingConfigurationInput}
use mwaa_controller.Ext.Sdk.{CreateInput, UpdateInput, Network, SdkEnvironment}
use mwaa_controller.Ext.Runtime.{Pointers, text_of}
use mwaa_controller.Env.Payload.{write_network, write_update_network}
use mwaa_controller.Env.Payload.Bounds.{create_input_of, update_input_of}
use mathlib.Core.Option

-- The environment is described with the values of the request.
pub record Echoes (inp : CreateInput) (env : SdkEnvironment) : Type 0 where
  pub airflow_configuration_options :
      env.airflow_configuration_options ≡ inp.airflow_configuration_options
  pub airflow_version : env.airflow_version ≡ inp.airflow_version
  pub dag_s3_path : env.dag_s3_path ≡ inp.dag_s3_path
  pub endpoint_management : env.endpoint_management ≡ inp.endpoint_management
  pub environment_class : env.environment_class ≡ inp.environment_class
  pub execution_role_arn : env.execution_role_arn ≡ inp.execution_role_arn
  pub kms_key : env.kms_key ≡ inp.kms_key
  pub logging_configuration : env.logging_configuration ≡ inp.logging_configuration
  pub max_webservers : env.max_webservers ≡ inp.max_webservers
  pub max_workers : env.max_workers ≡ inp.max_workers
  pub min_webservers : env.min_webservers ≡ inp.min_webservers
  pub min_workers : env.min_workers ≡ inp.min_workers
  pub name : env.name ≡ inp.name
  pub network_configuration : env.network_configuration ≡ inp.network_configuration
  pub plugins_s3_object_version : env.plugins_s3_object_version ≡ inp.plugins_s3_object_version
  pub plugins_s3_path : env.plugins_s3_path ≡ inp.plugins_s3_path
  pub requirements_s3_object_version :
      env.requirements_s3_object_version ≡ inp.requirements_s3_object_version
  pub requirements_s3_path : env.requirements_s3_path ≡ inp.requirements_s3_path
  pub schedulers : env.schedulers ≡ inp.schedulers
  pub source_bucket_arn : env.source_bucket_arn ≡ inp.source_bucket_arn
  pub startup_script_s3_object_version :
      env.startup_script_s3_object_version ≡ inp.startup_script_s3_object_version
  pub startup_script_s3_path : env.startup_script_s3_path ≡ inp.startup_script_s3_path
  pub tags : env.tags ≡ inp.tags
  pub webserver_access_mode : env.webserver_access_mode ≡ inp.webserver_access_mode
  pub weekly_maintenance_window_start :
      env.weekly_maintenance_window_start ≡ inp.weekly_maintenance_window_start

-- An enumeration is nil or not "", which the API cannot tell from nil.
abbrev pub NotEmpty : Option String → Type 0
NotEmpty s = s ≢ some ""

abbrev pub LogsNormal : Option ModuleLoggingConfigurationInput → Type 0
LogsNormal none = Unit
LogsNormal (some l) = NotEmpty l.log_level

abbrev pub LoggingNormal : Option LoggingConfigurationInput → Type 0
LoggingNormal none = Unit
LoggingNormal (some l) =
    LogsNormal l.dag_processing_logs
    × LogsNormal l.scheduler_logs
    × LogsNormal l.task_logs
    × LogsNormal l.webserver_logs
    × LogsNormal l.worker_logs

-- No nil element.
abbrev pub NoNil : Option (List (Option String)) → Type 0
NoNil xs = All (λ x. is_some x ≡ true) (elements xs)

abbrev pub NetworkNormal : Option NetworkConfiguration → Type 0
NetworkNormal none = Unit
NetworkNormal (some n) = NoNil n.security_group_ids × NoNil n.subnet_ids

-- A spec that the API can represent.
pub record IsNormal (spec : EnvironmentSpec) : Type 0 where
  pub options : (k : String) → lookup k (elements spec.airflow_configuration_options) ≢ some none
  pub endpoint_management : NotEmpty spec.endpoint_management
  pub webserver_access_mode : NotEmpty spec.webserver_access_mode
  pub logging_configuration : LoggingNormal spec.logging_configuration
  pub network_configuration : NetworkNormal spec.network_configuration

-- The same of a request for an update, which has of the network the security groups only.
pub record UpdateEchoes (inp : UpdateInput) (env : SdkEnvironment) : Type 0 where
  pub airflow_configuration_options :
      env.airflow_configuration_options ≡ inp.airflow_configuration_options
  pub airflow_version : env.airflow_version ≡ inp.airflow_version
  pub dag_s3_path : env.dag_s3_path ≡ inp.dag_s3_path
  pub environment_class : env.environment_class ≡ inp.environment_class
  pub execution_role_arn : env.execution_role_arn ≡ inp.execution_role_arn
  pub logging_configuration : env.logging_configuration ≡ inp.logging_configuration
  pub max_webservers : env.max_webservers ≡ inp.max_webservers
  pub max_workers : env.max_workers ≡ inp.max_workers
  pub min_webservers : env.min_webservers ≡ inp.min_webservers
  pub min_workers : env.min_workers ≡ inp.min_workers
  pub name : env.name ≡ inp.name
  pub plugins_s3_object_version : env.plugins_s3_object_version ≡ inp.plugins_s3_object_version
  pub plugins_s3_path : env.plugins_s3_path ≡ inp.plugins_s3_path
  pub requirements_s3_object_version :
      env.requirements_s3_object_version ≡ inp.requirements_s3_object_version
  pub requirements_s3_path : env.requirements_s3_path ≡ inp.requirements_s3_path
  pub schedulers : env.schedulers ≡ inp.schedulers
  pub source_bucket_arn : env.source_bucket_arn ≡ inp.source_bucket_arn
  pub startup_script_s3_object_version :
      env.startup_script_s3_object_version ≡ inp.startup_script_s3_object_version
  pub startup_script_s3_path : env.startup_script_s3_path ≡ inp.startup_script_s3_path
  pub webserver_access_mode : env.webserver_access_mode ≡ inp.webserver_access_mode
  pub weekly_maintenance_window_start :
      env.weekly_maintenance_window_start ≡ inp.weekly_maintenance_window_start
  pub network_configuration :
      Option.map (λ n. n.security_group_ids) env.network_configuration ≡ inp.network_configuration

-- What an update does not carry is described as the spec has it: the fields that cannot change, and
-- the tags.
pub record OthersEcho (P : Pointers) (spec : EnvironmentSpec) (env : SdkEnvironment) : Type 0 where
  pub endpoint_management : env.endpoint_management ≡ text_of spec.endpoint_management
  pub kms_key : env.kms_key ≡ spec.kms_key
  pub tags : env.tags ≡ Option.map P.to_string_map spec.tags
  pub subnet_ids :
      Option.map (λ n. n.subnet_ids) env.network_configuration
      ≡ Option.map (λ n. Option.map P.to_string_slice n.subnet_ids) spec.network_configuration

network-whole :
    (P : Pointers) (n : Option NetworkConfiguration) (m : Option Network)
    → Option.map (λ x. x.security_group_ids) m ≡ Option.map (write_update_network P) n
    → Option.map (λ x. x.subnet_ids) m
      ≡ Option.map (λ x. Option.map P.to_string_slice x.subnet_ids) n
    → m ≡ Option.map (write_network P) n
unfolding write_network write_update_network
network-whole P none none g h = refl
network-whole P none (some m) g h = cc
network-whole P (some n) none g h = cc
network-whole P (some n) (some m) g h = cc

-- Both together are the values of a create.
pub update-Echoes :
    (P : Pointers) (spec : EnvironmentSpec) (env : SdkEnvironment)
    → UpdateEchoes (update_input_of P spec) env
    → OthersEcho P spec env
    → Echoes (create_input_of P spec) env
update-Echoes P spec env e o = record {
  airflow_configuration_options = e.airflow_configuration_options;
  airflow_version = e.airflow_version;
  dag_s3_path = e.dag_s3_path;
  endpoint_management = o.endpoint_management;
  environment_class = e.environment_class;
  execution_role_arn = e.execution_role_arn;
  kms_key = o.kms_key;
  logging_configuration = e.logging_configuration;
  max_webservers = e.max_webservers;
  max_workers = e.max_workers;
  min_webservers = e.min_webservers;
  min_workers = e.min_workers;
  name = e.name;
  network_configuration =
      network-whole P spec.network_configuration env.network_configuration e.network_configuration
        o.subnet_ids;
  plugins_s3_object_version = e.plugins_s3_object_version;
  plugins_s3_path = e.plugins_s3_path;
  requirements_s3_object_version = e.requirements_s3_object_version;
  requirements_s3_path = e.requirements_s3_path;
  schedulers = e.schedulers;
  source_bucket_arn = e.source_bucket_arn;
  startup_script_s3_object_version = e.startup_script_s3_object_version;
  startup_script_s3_path = e.startup_script_s3_path;
  tags = o.tags;
  webserver_access_mode = e.webserver_access_mode;
  weekly_maintenance_window_start = e.weekly_maintenance_window_start;
}
