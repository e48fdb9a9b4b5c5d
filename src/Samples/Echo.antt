-- ===== src/Samples/Echo.antt =====
-- The sample spec as a service describes it that was asked to create it.
use mwaa_controller.Common.{String, ◌≢◌, refl, string_eq, none}
use mwaa_controller.Common.{arith, ==_ne}
use mwaa_controller.Ext.Sdk.{CreateInput, SdkEnvironment}
use mwaa_controller.Env.Delta.Matches.{HasMaps}
use mwaa_controller.Env.Payload.Bounds.{create_input_of}
use mwaa_controller.Env.Payload.Echoes.{Echoes, IsNormal}
use mwaa_controller.Samples.Maps.{pointers}
use mwaa_controller.Samples.Resources.{prod_spec, described}

abbrev pub prod_input : CreateInput
prod_input = create_input_of pointers prod_spec

-- The service's description of the environment that the request asks for.
abbrev pub echo : String → SdkEnvironment
echo state = record (described state none) {
  airflow_configuration_options = prod_input.airflow_configuration_options;
  airflow_version = prod_input.airflow_version;
  endpoint_management = prod_input.endpoint_management;
  logging_configuration = prod_input.logging_configuration;
  max_webservers = none;
  min_webservers = none;
  network_configuration = prod_input.network_configuration;
  schedulers = none;
  tags = prod_input.tags;
  webserver_access_mode = prod_input.webserver_access_mode;
}

pub echo-Echoes : (state : String) → Echoes prod_input (echo state)
echo-Echoes state = record {
  airflow_configuration_options = refl;
  airflow_version = refl;
  dag_s3_path = refl;
  endpoint_management = refl;
  environment_class = refl;
  execution_role_arn = refl;
  kms_key = refl;
  logging_configuration = refl;
  max_webservers = refl;
  max_workers = refl;
  min_webservers = refl;
  min_workers = refl;
  name = refl;
  network_configuration = refl;
  plugins_s3_object_version = refl;
  plugins_s3_path = refl;
  requirements_s3_object_version = refl;
  requirements_s3_path = refl;
  schedulers = refl;
  source_bucket_arn = refl;
  startup_script_s3_object_version = refl;
  startup_script_s3_path = refl;
  tags = refl;
  webserver_access_mode = refl;
  weekly_maintenance_window_start = refl;
}

info_is_text : ◌≢◌ {A = String} "INFO" ""
unfolding string_eq
info_is_text = ==_ne "INFO" "" refl

pub prod-IsNormal : IsNormal prod_spec
prod-IsNormal = record {
  options = λ k. ground arith;
  endpoint_management = λ h. cc;
  webserver_access_mode = λ h. cc;
  logging_configuration = (tt, tt, (λ h. info_is_text cc), tt, tt);
  network_configuration = ((refl, tt), (refl, (refl, tt)));
}

pub prod-HasMaps : HasMaps prod_spec
prod-HasMaps = record { options = (refl, tt); tags = (refl, tt) }
