-- ===== src/DeepCopy/Spec.antt =====
-- `EnvironmentSpec`.
use mwaa_controller.Api.{EnvironmentSpec}
use mwaa_controller.DeepCopy.Heap.{Foreign, Heap, SpecStruct}
use mwaa_controller.DeepCopy.Into.{Copies}
use mwaa_controller.DeepCopy.Resource.{copy_spec_into}
use mwaa_controller.DeepCopy.Means.{Meanings, SpecMeans}
use mwaa_controller.DeepCopy.Runs.{Same}
use mwaa_controller.DeepCopy.Pointers.{Copied, field, ◌>>=◌, Later, pure_later, by_fields}
use mwaa_controller.DeepCopy.Fields.{field_text, field_number, field_map, field_logging}
use mwaa_controller.DeepCopy.Nested.{CopiesAreLawful, field_wrapper, field_network}

module _ {F : Foreign} (N : Meanings F) (X : Copies F) (L : CopiesAreLawful N X) where
  pub spec-still :
      {h g : Heap F} (s : SpecStruct) (v : EnvironmentSpec)
      → Same 0 h g
      → SpecMeans N h s v
      → SpecMeans N g s v
  spec-still s v same m = record {
    airflow_configuration_options =
        field_map.still s.airflow_configuration_options v.airflow_configuration_options same
          m.airflow_configuration_options;
    airflow_version = field_text.still s.airflow_version v.airflow_version same m.airflow_version;
    dag_s3_path = field_text.still s.dag_s3_path v.dag_s3_path same m.dag_s3_path;
    endpoint_management =
        field_text.still s.endpoint_management v.endpoint_management same m.endpoint_management;
    environment_class =
        field_text.still s.environment_class v.environment_class same m.environment_class;
    execution_role_arn =
        field_text.still s.execution_role_arn v.execution_role_arn same m.execution_role_arn;
    execution_role_ref =
        (field_wrapper N X L).still s.execution_role_ref v.execution_role_ref same
          m.execution_role_ref;
    kms_key = field_text.still s.kms_key v.kms_key same m.kms_key;
    kms_key_ref = (field_wrapper N X L).still s.kms_key_ref v.kms_key_ref same m.kms_key_ref;
    logging_configuration =
        field_logging.still s.logging_configuration v.logging_configuration same
          m.logging_configuration;
    max_webservers = field_number.still s.max_webservers v.max_webservers same m.max_webservers;
    max_workers = field_number.still s.max_workers v.max_workers same m.max_workers;
    min_webservers = field_number.still s.min_webservers v.min_webservers same m.min_webservers;
    min_workers = field_number.still s.min_workers v.min_workers same m.min_workers;
    name = field_text.still s.name v.name same m.name;
    network_configuration =
        (field_network N X L).still s.network_configuration v.network_configuration same
          m.network_configuration;
    plugins_s3_object_version =
        field_text.still s.plugins_s3_object_version v.plugins_s3_object_version same
          m.plugins_s3_object_version;
    plugins_s3_path = field_text.still s.plugins_s3_path v.plugins_s3_path same m.plugins_s3_path;
    requirements_s3_object_version =
        field_text.still s.requirements_s3_object_version v.requirements_s3_object_version same
          m.requirements_s3_object_version;
    requirements_s3_path =
        field_text.still s.requirements_s3_path v.requirements_s3_path same m.requirements_s3_path;
    schedulers = field_number.still s.schedulers v.schedulers same m.schedulers;
    source_bucket_arn =
        field_text.still s.source_bucket_arn v.source_bucket_arn same m.source_bucket_arn;
    source_bucket_ref =
        (field_wrapper N X L).still s.source_bucket_ref v.source_bucket_ref same
          m.source_bucket_ref;
    startup_script_s3_object_version =
        field_text.still s.startup_script_s3_object_version v.startup_script_s3_object_version same
          m.startup_script_s3_object_version;
    startup_script_s3_path =
        field_text.still s.startup_script_s3_path v.startup_script_s3_path same
          m.startup_script_s3_path;
    tags = field_map.still s.tags v.tags same m.tags;
    webserver_access_mode =
        field_text.still s.webserver_access_mode v.webserver_access_mode same
          m.webserver_access_mode;
    weekly_maintenance_window_start =
        field_text.still s.weekly_maintenance_window_start v.weekly_maintenance_window_start same
          m.weekly_maintenance_window_start;
  }

  spec-copies :
      (h : Heap F) (s : SpecStruct) (v : EnvironmentSpec)
      → SpecMeans N h s v
      → Later h (copy_spec_into X s) (λ g t. SpecMeans N g t v)
  unfolding copy_spec_into
  spec-copies h s v m = do
    _ ←
        field s.airflow_configuration_options v.airflow_configuration_options field_map
          m.airflow_configuration_options
    _ ← field s.airflow_version v.airflow_version field_text m.airflow_version
    _ ← field s.dag_s3_path v.dag_s3_path field_text m.dag_s3_path
    _ ← field s.endpoint_management v.endpoint_management field_text m.endpoint_management
    _ ← field s.environment_class v.environment_class field_text m.environment_class
    _ ← field s.execution_role_arn v.execution_role_arn field_text m.execution_role_arn
    _ ← field s.execution_role_ref v.execution_role_ref (field_wrapper N X L) m.execution_role_ref
    _ ← field s.kms_key v.kms_key field_text m.kms_key
    _ ← field s.kms_key_ref v.kms_key_ref (field_wrapper N X L) m.kms_key_ref
    _ ← field s.logging_configuration v.logging_configuration field_logging m.logging_configuration
    _ ← field s.max_webservers v.max_webservers field_number m.max_webservers
    _ ← field s.max_workers v.max_workers field_number m.max_workers
    _ ← field s.min_webservers v.min_webservers field_number m.min_webservers
    _ ← field s.min_workers v.min_workers field_number m.min_workers
    _ ← field s.name v.name field_text m.name
    _ ←
        field s.network_configuration v.network_configuration (field_network N X L)
          m.network_configuration
    _ ←
        field s.plugins_s3_object_version v.plugins_s3_object_version field_text
          m.plugins_s3_object_version
    _ ← field s.plugins_s3_path v.plugins_s3_path field_text m.plugins_s3_path
    _ ←
        field s.requirements_s3_object_version v.requirements_s3_object_version field_text
          m.requirements_s3_object_version
    _ ← field s.requirements_s3_path v.requirements_s3_path field_text m.requirements_s3_path
    _ ← field s.schedulers v.schedulers field_number m.schedulers
    _ ← field s.source_bucket_arn v.source_bucket_arn field_text m.source_bucket_arn
    _ ← field s.source_bucket_ref v.source_bucket_ref (field_wrapper N X L) m.source_bucket_ref
    _ ←
        field s.startup_script_s3_object_version v.startup_script_s3_object_version field_text
          m.startup_script_s3_object_version
    _ ← field s.startup_script_s3_path v.startup_script_s3_path field_text m.startup_script_s3_path
    _ ← field s.tags v.tags field_map m.tags
    _ ← field s.webserver_access_mode v.webserver_access_mode field_text m.webserver_access_mode
    _ ←
        field s.weekly_maintenance_window_start v.weekly_maintenance_window_start field_text
          m.weekly_maintenance_window_start
    pure_later _
        λ g m28 m27 m26 m25 m24 m23 m22 m21 m20 m19 m18 m17 m16 m15 m14 m13 m12 m11 m10 m9 m8 m7 m6
            m5 m4 m3 m2 m1.
          record {
            airflow_configuration_options = m1;
            airflow_version = m2;
            dag_s3_path = m3;
            endpoint_management = m4;
            environment_class = m5;
            execution_role_arn = m6;
            execution_role_ref = m7;
            kms_key = m8;
            kms_key_ref = m9;
            logging_configuration = m10;
            max_webservers = m11;
            max_workers = m12;
            min_webservers = m13;
            min_workers = m14;
            name = m15;
            network_configuration = m16;
            plugins_s3_object_version = m17;
            plugins_s3_path = m18;
            requirements_s3_object_version = m19;
            requirements_s3_path = m20;
            schedulers = m21;
            source_bucket_arn = m22;
            source_bucket_ref = m23;
            startup_script_s3_object_version = m24;
            startup_script_s3_path = m25;
            tags = m26;
            webserver_access_mode = m27;
            weekly_maintenance_window_start = m28;
          }

  pub spec-Copied : Copied (SpecMeans N) (copy_spec_into X)
  spec-Copied = by_fields (λ h g. spec-still) spec-copies
