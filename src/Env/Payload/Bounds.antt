-- ===== src/Env/Payload/Bounds.antt =====
-- The request payloads and the range of `int32`.
use mwaa_controller.Common.{String, ◌≡◌, refl, ◌↔◌, Option, none, some, arith, Result, ok, err}
use mwaa_controller.Common.Results.{◌>>=◌}
use mwaa_controller.Common.Int.{ℤ, pos, negsuc, InInt32, to_int32-eq_self}
use mathlib.Core.Option
use mwaa_controller.Api.{EnvironmentSpec}
use mwaa_controller.Ext.Errors.{Errors}
use mwaa_controller.Ext.Sdk.{CreateInput, UpdateInput}
use mwaa_controller.Ext.Runtime.{Pointers, text_of}
use mwaa_controller.Env.Payload.{
  write_logging, write_network, write_update_network, int32_field, new_create_request_payload,
}
use mwaa_controller.Env.Payload.{new_update_request_payload}

-- A field is not set, or an `int32` holds its value.
abbrev pub FieldInRange : Option ℤ → Type 0
FieldInRange none = Unit
FieldInRange (some x) = InInt32 x

pub record InRange (spec : EnvironmentSpec) : Type 0 where
  pub max_webservers : FieldInRange spec.max_webservers
  pub max_workers : FieldInRange spec.max_workers
  pub min_webservers : FieldInRange spec.min_webservers
  pub min_workers : FieldInRange spec.min_workers
  pub schedulers : FieldInRange spec.schedulers

int32_field-ok :
    (E : Errors) (field : String) (v : Option ℤ) → FieldInRange v → int32_field E field v ≡ ok v
unfolding int32_field
int32_field-ok E field none h = refl
int32_field-ok E field (some (pos n)) h = ground (arith, to_int32-eq_self (pos n) h)
int32_field-ok E field (some (negsuc n)) h = ground (arith, to_int32-eq_self (negsuc n) h)

int32_field-range :
    (E : Errors) (field : String) (v w : Option ℤ) → int32_field E field v ≡ ok w → FieldInRange v
unfolding int32_field
int32_field-range E field none w h = tt
int32_field-range E field (some (pos n)) w h = ground arith
int32_field-range E field (some (negsuc n)) w h = ground arith

-- A payload that was made passed the check of each field.
passed :
    {X Y Z : Type 0} (check : Result X Y) (rest : Y → Result X Z) {z : Z}
    → (check >>= rest) ≡ ok z
    → (y : Y) × (check ≡ ok y) × (rest y ≡ ok z)
passed (err e) rest made = cc
passed (ok y) rest made = (y, refl, made)

-- The payloads with every number as the spec has it.
abbrev pub create_input_of : Pointers → EnvironmentSpec → CreateInput
create_input_of P spec = record {
  airflow_configuration_options = Option.map P.to_string_map spec.airflow_configuration_options;
  airflow_version = spec.airflow_version;
  dag_s3_path = spec.dag_s3_path;
  endpoint_management = text_of spec.endpoint_management;
  environment_class = spec.environment_class;
  execution_role_arn = spec.execution_role_arn;
  kms_key = spec.kms_key;
  logging_configuration = Option.map write_logging spec.logging_configuration;
  max_webservers = spec.max_webservers;
  max_workers = spec.max_workers;
  min_webservers = spec.min_webservers;
  min_workers = spec.min_workers;
  name = spec.name;
  network_configuration = Option.map (write_network P) spec.network_configuration;
  plugins_s3_object_version = spec.plugins_s3_object_version;
  plugins_s3_path = spec.plugins_s3_path;
  requirements_s3_object_version = spec.requirements_s3_object_version;
  requirements_s3_path = spec.requirements_s3_path;
  schedulers = spec.schedulers;
  source_bucket_arn = spec.source_bucket_arn;
  startup_script_s3_object_version = spec.startup_script_s3_object_version;
  startup_script_s3_path = spec.startup_script_s3_path;
  tags = Option.map P.to_string_map spec.tags;
  webserver_access_mode = text_of spec.webserver_access_mode;
  weekly_maintenance_window_start = spec.weekly_maintenance_window_start;
}

abbrev pub update_input_of : Pointers → EnvironmentSpec → UpdateInput
update_input_of P spec = record {
  airflow_configuration_options = Option.map P.to_string_map spec.airflow_configuration_options;
  airflow_version = spec.airflow_version;
  dag_s3_path = spec.dag_s3_path;
  environment_class = spec.environment_class;
  execution_role_arn = spec.execution_role_arn;
  logging_configuration = Option.map write_logging spec.logging_configuration;
  max_webservers = spec.max_webservers;
  max_workers = spec.max_workers;
  min_webservers = spec.min_webservers;
  min_workers = spec.min_workers;
  name = spec.name;
  network_configuration = Option.map (write_update_network P) spec.network_configuration;
  plugins_s3_object_version = spec.plugins_s3_object_version;
  plugins_s3_path = spec.plugins_s3_path;
  requirements_s3_object_version = spec.requirements_s3_object_version;
  requirements_s3_path = spec.requirements_s3_path;
  schedulers = spec.schedulers;
  source_bucket_arn = spec.source_bucket_arn;
  startup_script_s3_object_version = spec.startup_script_s3_object_version;
  startup_script_s3_path = spec.startup_script_s3_path;
  webserver_access_mode = text_of spec.webserver_access_mode;
  weekly_maintenance_window_start = spec.weekly_maintenance_window_start;
}

module _ (E : Errors) (P : Pointers) (spec : EnvironmentSpec) where
  create_payload-InRange :
      (inp : CreateInput) → new_create_request_payload E P spec ≡ ok inp → InRange spec
  unfolding new_create_request_payload
  create_payload-InRange inp h =
      let (_, a, h) = passed (int32_field E "MaxWebservers" spec.max_webservers) _ h in
      let (_, b, h) = passed (int32_field E "MaxWorkers" spec.max_workers) _ h in
      let (_, c, h) = passed (int32_field E "MinWebservers" spec.min_webservers) _ h in
      let (_, d, h) = passed (int32_field E "MinWorkers" spec.min_workers) _ h in
      let (_, e, h) = passed (int32_field E "Schedulers" spec.schedulers) _ h in
      record {
        max_webservers = int32_field-range E _ _ _ a;
        max_workers = int32_field-range E _ _ _ b;
        min_webservers = int32_field-range E _ _ _ c;
        min_workers = int32_field-range E _ _ _ d;
        schedulers = int32_field-range E _ _ _ e;
      }

  create_payload_total :
      InRange spec → new_create_request_payload E P spec ≡ ok (create_input_of P spec)
  unfolding new_create_request_payload
  create_payload_total u = rw (
    int32_field-ok E "MaxWebservers" spec.max_webservers u.max_webservers,
    int32_field-ok E "MaxWorkers" spec.max_workers u.max_workers,
    int32_field-ok E "MinWebservers" spec.min_webservers u.min_webservers,
    int32_field-ok E "MinWorkers" spec.min_workers u.min_workers,
    int32_field-ok E "Schedulers" spec.schedulers u.schedulers,
  )

  -- The payload of a create is made exactly if every number fits an `int32`, and then it carries
  -- the spec with every number unchanged.
  pub create_payload_iff :
      (inp : CreateInput)
      → (new_create_request_payload E P spec ≡ ok inp)
        ↔ (InRange spec × (inp ≡ create_input_of P spec))
  create_payload_iff inp = (
    λ h. let u = create_payload-InRange inp h in let e = create_payload_total u in (u, cc),
    λ h. let e = create_payload_total h.0 in cc,
  )

  update_payload-InRange :
      (inp : UpdateInput) → new_update_request_payload E P spec ≡ ok inp → InRange spec
  unfolding new_update_request_payload
  update_payload-InRange inp h =
      let (_, a, h) = passed (int32_field E "MaxWebservers" spec.max_webservers) _ h in
      let (_, b, h) = passed (int32_field E "MaxWorkers" spec.max_workers) _ h in
      let (_, c, h) = passed (int32_field E "MinWebservers" spec.min_webservers) _ h in
      let (_, d, h) = passed (int32_field E "MinWorkers" spec.min_workers) _ h in
      let (_, e, h) = passed (int32_field E "Schedulers" spec.schedulers) _ h in
      record {
        max_webservers = int32_field-range E _ _ _ a;
        max_workers = int32_field-range E _ _ _ b;
        min_webservers = int32_field-range E _ _ _ c;
        min_workers = int32_field-range E _ _ _ d;
        schedulers = int32_field-range E _ _ _ e;
      }

  update_payload_total :
      InRange spec → new_update_request_payload E P spec ≡ ok (update_input_of P spec)
  unfolding new_update_request_payload
  update_payload_total u = rw (
    int32_field-ok E "MaxWebservers" spec.max_webservers u.max_webservers,
    int32_field-ok E "MaxWorkers" spec.max_workers u.max_workers,
    int32_field-ok E "MinWebservers" spec.min_webservers u.min_webservers,
    int32_field-ok E "MinWorkers" spec.min_workers u.min_workers,
    int32_field-ok E "Schedulers" spec.schedulers u.schedulers,
  )

  -- The payload of an update is made exactly if every number fits an `int32`, and then it carries
  -- the spec with every number unchanged.
  pub update_payload_iff :
      (inp : UpdateInput)
      → (new_update_request_payload E P spec ≡ ok inp)
        ↔ (InRange spec × (inp ≡ update_input_of P spec))
  update_payload_iff inp = (
    λ h. let u = update_payload-InRange inp h in let e = update_payload_total u in (u, cc),
    λ h. let e = update_payload_total h.0 in cc,
  )
