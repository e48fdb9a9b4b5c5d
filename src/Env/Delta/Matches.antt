-- ===== src/Env/Delta/Matches.antt =====
-- When two specs mean the same to the comparison.
use mwaa_controller.Common.{List, ◌∷◌, String, ◌≡◌, ◌↔◌, [], All, elements, string_eq}
use mwaa_controller.Common.Int.{int_eq}
use mwaa_controller.Common.Dict.{NodupKeys, SameEntries}
use mwaa_controller.Api.{EnvironmentSpec}
use mwaa_controller.Ext.Compare.{Compare}
use mwaa_controller.Env.TagFields.Lookup.{tag_at}
use mwaa_controller.Env.Delta.Parts.{NetworkMatches}

-- The two maps of a spec are maps.
pub record HasMaps (a : EnvironmentSpec) : Type 0 where
  pub options : NodupKeys (elements a.airflow_configuration_options)
  pub tags : NodupKeys (elements a.tags)

-- The fields other than the options mean the same: they are equal, but nil and empty tags are the
-- same, a nil tag value is "", the network's identifiers match as slices, and its references do
-- not count.
pub record FieldsMatch (Q : Compare) (a b : EnvironmentSpec) : Type 0 where
  pub airflow_version : a.airflow_version ≡ b.airflow_version
  pub dag_s3_path : a.dag_s3_path ≡ b.dag_s3_path
  pub endpoint_management : a.endpoint_management ≡ b.endpoint_management
  pub environment_class : a.environment_class ≡ b.environment_class
  pub execution_role_arn : a.execution_role_arn ≡ b.execution_role_arn
  pub execution_role_ref : a.execution_role_ref ≡ b.execution_role_ref
  pub kms_key : a.kms_key ≡ b.kms_key
  pub kms_key_ref : a.kms_key_ref ≡ b.kms_key_ref
  pub logging_configuration : a.logging_configuration ≡ b.logging_configuration
  pub max_webservers : a.max_webservers ≡ b.max_webservers
  pub max_workers : a.max_workers ≡ b.max_workers
  pub min_webservers : a.min_webservers ≡ b.min_webservers
  pub min_workers : a.min_workers ≡ b.min_workers
  pub name : a.name ≡ b.name
  pub network_configuration : NetworkMatches Q a.network_configuration b.network_configuration
  pub plugins_s3_object_version : a.plugins_s3_object_version ≡ b.plugins_s3_object_version
  pub plugins_s3_path : a.plugins_s3_path ≡ b.plugins_s3_path
  pub requirements_s3_object_version :
      a.requirements_s3_object_version ≡ b.requirements_s3_object_version
  pub requirements_s3_path : a.requirements_s3_path ≡ b.requirements_s3_path
  pub schedulers : a.schedulers ≡ b.schedulers
  pub source_bucket_arn : a.source_bucket_arn ≡ b.source_bucket_arn
  pub source_bucket_ref : a.source_bucket_ref ≡ b.source_bucket_ref
  pub startup_script_s3_object_version :
      a.startup_script_s3_object_version ≡ b.startup_script_s3_object_version
  pub startup_script_s3_path : a.startup_script_s3_path ≡ b.startup_script_s3_path
  pub tags : (k : String) → tag_at k a.tags ≡ tag_at k b.tags
  pub webserver_access_mode : a.webserver_access_mode ≡ b.webserver_access_mode
  pub weekly_maintenance_window_start :
      a.weekly_maintenance_window_start ≡ b.weekly_maintenance_window_start

-- Two specs that mean the same.
abbrev pub SpecMatches : Compare → EnvironmentSpec → EnvironmentSpec → Type 0
SpecMatches Q a b =
    SameEntries (elements a.airflow_configuration_options)
      (elements b.airflow_configuration_options)
    × FieldsMatch Q a b

-- The parts of a match, in the order of the comparisons.
abbrev pub parts : Compare → EnvironmentSpec → EnvironmentSpec → List (Type 0)
parts Q a b =
    (a.airflow_version ≡ b.airflow_version)
    ∷ (a.dag_s3_path ≡ b.dag_s3_path)
    ∷ (a.endpoint_management ≡ b.endpoint_management)
    ∷ (a.environment_class ≡ b.environment_class)
    ∷ (a.execution_role_arn ≡ b.execution_role_arn)
    ∷ (a.execution_role_ref ≡ b.execution_role_ref)
    ∷ (a.kms_key ≡ b.kms_key)
    ∷ (a.kms_key_ref ≡ b.kms_key_ref)
    ∷ (a.logging_configuration ≡ b.logging_configuration)
    ∷ (a.max_webservers ≡ b.max_webservers)
    ∷ (a.max_workers ≡ b.max_workers)
    ∷ (a.min_webservers ≡ b.min_webservers)
    ∷ (a.min_workers ≡ b.min_workers)
    ∷ (a.name ≡ b.name)
    ∷ (NetworkMatches Q a.network_configuration b.network_configuration)
    ∷ (a.plugins_s3_object_version ≡ b.plugins_s3_object_version)
    ∷ (a.plugins_s3_path ≡ b.plugins_s3_path)
    ∷ (a.requirements_s3_object_version ≡ b.requirements_s3_object_version)
    ∷ (a.requirements_s3_path ≡ b.requirements_s3_path)
    ∷ (a.schedulers ≡ b.schedulers)
    ∷ (a.source_bucket_arn ≡ b.source_bucket_arn)
    ∷ (a.source_bucket_ref ≡ b.source_bucket_ref)
    ∷ (a.startup_script_s3_object_version ≡ b.startup_script_s3_object_version)
    ∷ (a.startup_script_s3_path ≡ b.startup_script_s3_path)
    ∷ ((k : String) → tag_at k a.tags ≡ tag_at k b.tags)
    ∷ (a.webserver_access_mode ≡ b.webserver_access_mode)
    ∷ (a.weekly_maintenance_window_start ≡ b.weekly_maintenance_window_start)
    ∷ []

infixr 5 ◌&&&◌
◌&&&◌ : {A B : Type 0} → A → B → A × B
x &&& y = (x, y)

pub match_iff :
    (Q : Compare) (a b : EnvironmentSpec) → FieldsMatch Q a b ↔ All (λ t. t) (parts Q a b)
match_iff Q a b = (
  λ m.
      m.airflow_version &&& m.dag_s3_path &&& m.endpoint_management &&& m.environment_class
      &&& m.execution_role_arn &&& m.execution_role_ref &&& m.kms_key &&& m.kms_key_ref
      &&& m.logging_configuration &&& m.max_webservers &&& m.max_workers &&& m.min_webservers
      &&& m.min_workers &&& m.name &&& m.network_configuration &&& m.plugins_s3_object_version
      &&& m.plugins_s3_path &&& m.requirements_s3_object_version &&& m.requirements_s3_path
      &&& m.schedulers &&& m.source_bucket_arn &&& m.source_bucket_ref
      &&& m.startup_script_s3_object_version &&& m.startup_script_s3_path &&& m.tags
      &&& m.webserver_access_mode &&& m.weekly_maintenance_window_start &&& tt,
  λ h. record {
    airflow_version = h.0;
    dag_s3_path = h.1.0;
    endpoint_management = h.1.1.0;
    environment_class = h.1.1.1.0;
    execution_role_arn = h.1.1.1.1.0;
    execution_role_ref = h.1.1.1.1.1.0;
    kms_key = h.1.1.1.1.1.1.0;
    kms_key_ref = h.1.1.1.1.1.1.1.0;
    logging_configuration = h.1.1.1.1.1.1.1.1.0;
    max_webservers = h.1.1.1.1.1.1.1.1.1.0;
    max_workers = h.1.1.1.1.1.1.1.1.1.1.0;
    min_webservers = h.1.1.1.1.1.1.1.1.1.1.1.0;
    min_workers = h.1.1.1.1.1.1.1.1.1.1.1.1.0;
    name = h.1.1.1.1.1.1.1.1.1.1.1.1.1.0;
    network_configuration = h.1.1.1.1.1.1.1.1.1.1.1.1.1.1.0;
    plugins_s3_object_version = h.1.1.1.1.1.1.1.1.1.1.1.1.1.1.1.0;
    plugins_s3_path = h.1.1.1.1.1.1.1.1.1.1.1.1.1.1.1.1.0;
    requirements_s3_object_version = h.1.1.1.1.1.1.1.1.1.1.1.1.1.1.1.1.1.0;
    requirements_s3_path = h.1.1.1.1.1.1.1.1.1.1.1.1.1.1.1.1.1.1.0;
    schedulers = h.1.1.1.1.1.1.1.1.1.1.1.1.1.1.1.1.1.1.1.0;
    source_bucket_arn = h.1.1.1.1.1.1.1.1.1.1.1.1.1.1.1.1.1.1.1.1.0;
    source_bucket_ref = h.1.1.1.1.1.1.1.1.1.1.1.1.1.1.1.1.1.1.1.1.1.0;
    startup_script_s3_object_version = h.1.1.1.1.1.1.1.1.1.1.1.1.1.1.1.1.1.1.1.1.1.1.0;
    startup_script_s3_path = h.1.1.1.1.1.1.1.1.1.1.1.1.1.1.1.1.1.1.1.1.1.1.1.0;
    tags = h.1.1.1.1.1.1.1.1.1.1.1.1.1.1.1.1.1.1.1.1.1.1.1.1.0;
    webserver_access_mode = h.1.1.1.1.1.1.1.1.1.1.1.1.1.1.1.1.1.1.1.1.1.1.1.1.1.0;
    weekly_maintenance_window_start = h.1.1.1.1.1.1.1.1.1.1.1.1.1.1.1.1.1.1.1.1.1.1.1.1.1.1.0;
  },
)
