-- ===== src/Env/Payload/RoundTrip.antt =====
-- An environment that is created and then described as it was created is read back without a
-- difference.
use mwaa_controller.Common.{String, ◌≡◌, ◌≢◌, refl, sym, ap, ◌∙◌, Option, none, some}
use mwaa_controller.Common.{List, [], arith, elements, ok, string_eq}
use mwaa_controller.Common.Dict.{Dict, lookup, NodupKeys, SameEntries}
use mwaa_controller.Api.{EnvironmentSpec, LoggingConfigurationInput, NetworkConfiguration}
use mwaa_controller.Api.{ModuleLoggingConfigurationInput}
use mwaa_controller.Ext.Errors.{Errors}
use mwaa_controller.Ext.Sdk.{CreateInput, SdkEnvironment}
use mwaa_controller.Ext.Compare.{Compare, CompareIsLawful}
use mwaa_controller.Ext.Runtime.{Pointers, PointersIsLawful, text_of}
use mwaa_controller.Env.Delta.{differences}
use mwaa_controller.Env.Delta.Matches.{HasMaps, FieldsMatch}
use mwaa_controller.Env.Delta.Complete.{differences-eq-nil}
use mwaa_controller.Env.Delta.Parts.{NetworkMatches}
use mwaa_controller.Env.TagFields.Lookup.{tag_at}
use mwaa_controller.Env.Read.{enum_ptr, read_module_logs, read_logging, read_network, read_spec}
use mwaa_controller.Env.Payload.{write_module_logs, write_logging, write_network}
use mwaa_controller.Env.Payload.{new_create_request_payload}
use mwaa_controller.Env.Payload.Bounds.{create_input_of, create_payload_iff}
use mathlib.Core.Option
use mwaa_controller.Env.Payload.Echoes.{
  Echoes, IsNormal, NotEmpty, LogsNormal, LoggingNormal, NoNil, NetworkNormal,
}

enum_ptr-text_of : (s : Option String) → NotEmpty s → enum_ptr (text_of s) ≡ s
unfolding enum_ptr
enum_ptr-text_of none h = ground arith
enum_ptr-text_of (some s) h = ground arith

logs_back :
    (l : Option ModuleLoggingConfigurationInput)
    → LogsNormal l
    → Option.map read_module_logs (Option.map write_module_logs l) ≡ l
unfolding read_module_logs write_module_logs
logs_back none h = refl
logs_back (some l) h = ground (arith, enum_ptr-text_of l.log_level h)

logging_back :
    (l : Option LoggingConfigurationInput)
    → LoggingNormal l
    → Option.map read_logging (Option.map write_logging l) ≡ l
unfolding read_logging write_logging
logging_back none h = refl
logging_back (some l) h = ground (
  arith,
  logs_back l.dag_processing_logs,
  logs_back l.scheduler_logs,
  logs_back l.task_logs,
  logs_back l.webserver_logs,
  logs_back l.worker_logs,
)

module _ (P : Pointers) (L : PointersIsLawful P) where
  options_back :
      (o : Option (Dict (Option String)))
      → ((k : String) → lookup k (elements o) ≢ some none)
      → SameEntries (elements o) (elements (Option.map P.string_map (Option.map P.to_string_map o)))
  options_back none h k = refl
  options_back (some d) h k =
      ground (arith, h k, L.lookup-string_map k (P.to_string_map d), L.lookup-to_string_map k d)

  tags_back :
      (o : Option (Dict (Option String))) (k : String)
      → tag_at k o ≡ tag_at k (Option.map P.string_map (Option.map P.to_string_map o))
  tags_back none k = refl
  tags_back (some d) k =
      ground (arith, L.lookup-string_map k (P.to_string_map d), L.lookup-to_string_map k d)

  maps_back :
      (o : Option (Dict (Option String)))
      → NodupKeys (elements o)
      → NodupKeys (elements (Option.map P.string_map (Option.map P.to_string_map o)))
  maps_back none u = tt
  maps_back (some d) u = L.string_map-NodupKeys (P.to_string_map d) (L.to_string_map-NodupKeys d u)

  ids_back :
      (xs : Option (List (Option String)))
      → NoNil xs
      → Option.map P.string_slice (Option.map P.to_string_slice xs) ≡ xs
  ids_back none h = refl
  ids_back (some xs) h = ap some (L.string_slice_back xs h)

  network_back :
      (Q : Compare)
      → CompareIsLawful Q
      → (n : Option NetworkConfiguration) → NetworkNormal n
      → NetworkMatches Q n (Option.map (read_network P) (Option.map (write_network P) n))
  unfolding read_network write_network
  network_back Q M none h = tt
  network_back Q M (some n) h =
      rw (ids_back n.security_group_ids h.0, ids_back n.subnet_ids h.1)
        ((refl, M.slice_p_equal_refl _), (refl, M.slice_p_equal_refl _))

  module _ (E : Errors) (spec : EnvironmentSpec) (inp : CreateInput) (env : SdkEnvironment) where
    -- What is read back, field by field, from the spec itself.
    pub echoed-HasMaps :
        Echoes (create_input_of P spec) env → HasMaps spec → HasMaps (read_spec P env spec)
    unfolding read_spec
    echoed-HasMaps e u = record {
      options =
          rw e.airflow_configuration_options
            (maps_back spec.airflow_configuration_options u.options);
      tags = rw e.tags (maps_back spec.tags u.tags);
    }

    echoed-options :
        Echoes (create_input_of P spec) env
        → IsNormal spec
        → SameEntries
            (elements spec.airflow_configuration_options)
            (elements (read_spec P env spec).airflow_configuration_options)
    unfolding read_spec
    echoed-options e n k =
        rw e.airflow_configuration_options
          (options_back spec.airflow_configuration_options n.options k)

    -- Whatever options are put into the spec that is read, the other fields match.
    pub echoed-FieldsMatch :
        (Q : Compare)
        → CompareIsLawful Q
        → Echoes (create_input_of P spec) env
        → IsNormal spec
        → (options : Option (Dict (Option String)))
        → FieldsMatch Q spec
            (record (read_spec P env spec) { airflow_configuration_options = options })
    unfolding read_spec
    echoed-FieldsMatch Q M e n options = record {
      airflow_version = sym e.airflow_version;
      dag_s3_path = sym e.dag_s3_path;
      endpoint_management = sym (
          ap enum_ptr e.endpoint_management
          ∙ enum_ptr-text_of spec.endpoint_management n.endpoint_management);
      environment_class = sym e.environment_class;
      execution_role_arn = sym e.execution_role_arn;
      execution_role_ref = refl;
      kms_key = sym e.kms_key;
      kms_key_ref = refl;
      logging_configuration = sym (
          ap (Option.map read_logging) e.logging_configuration
          ∙ logging_back spec.logging_configuration n.logging_configuration);
      max_webservers = sym e.max_webservers;
      max_workers = sym e.max_workers;
      min_webservers = sym e.min_webservers;
      min_workers = sym e.min_workers;
      name = sym e.name;
      network_configuration =
          rw e.network_configuration
            (network_back Q M spec.network_configuration n.network_configuration);
      plugins_s3_object_version = sym e.plugins_s3_object_version;
      plugins_s3_path = sym e.plugins_s3_path;
      requirements_s3_object_version = sym e.requirements_s3_object_version;
      requirements_s3_path = sym e.requirements_s3_path;
      schedulers = sym e.schedulers;
      source_bucket_arn = sym e.source_bucket_arn;
      source_bucket_ref = refl;
      startup_script_s3_object_version = sym e.startup_script_s3_object_version;
      startup_script_s3_path = sym e.startup_script_s3_path;
      tags = λ k. rw e.tags (tags_back spec.tags k);
      webserver_access_mode = sym (
          ap enum_ptr e.webserver_access_mode
          ∙ enum_ptr-text_of spec.webserver_access_mode n.webserver_access_mode);
      weekly_maintenance_window_start = sym e.weekly_maintenance_window_start;
    }

    -- If the payload of a create is made, and the service describes the environment with the
    -- values of that payload, then the spec that `sdkFind` reads back shows no difference to the
    -- desired one, if that one's options and tags are maps, it has no nil in its options and
    -- identifiers and no empty text for an enumeration, and comparators and pointer helpers do as
    -- documented.
    pub create_round_trip :
        (Q : Compare)
        → CompareIsLawful Q
        → new_create_request_payload E P spec ≡ ok inp
        → Echoes inp env
        → HasMaps spec
        → IsNormal spec
        → differences Q spec (read_spec P env spec) ≡ []
    create_round_trip Q M made e u n =
        let e : Echoes (create_input_of P spec) env =
          rw ((create_payload_iff E P spec inp).0 made).1 at e in
        (differences-eq-nil Q M spec (read_spec P env spec) u (echoed-HasMaps e u)).1
          (echoed-options e n, echoed-FieldsMatch Q M e n _)
