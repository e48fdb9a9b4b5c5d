-- ===== src/Env/LateInit/Fields.antt =====
-- What late initialization does to the fields, and when it is complete.
use mwaa_controller.Common.{
  ◌≡◌, refl, sym, ap, ◌∙◌, Option, none, some, true, false, ◌⊎◌, arith, is_some, List,
}
use mathlib.Core.Path.{subst}
use mwaa_controller.Common.{if◌then◌else◌, returns, ◌>>=◌, inl, inr, Bool-cases}
use mwaa_controller.Api.{Condition, Environment, EnvironmentSpec}
use mwaa_controller.Ext.Errors.{Errors}
use mwaa_controller.Ext.Sdk.{Client}
use mwaa_controller.Ext.Runtime.{Conditions, Pointers}
use mwaa_controller.Env.Calls.{Cloud}
use mwaa_controller.Env.Status.{Manager, with_conditions}
use mwaa_controller.Env.Status.Reports.{conditions_of}
use mwaa_controller.Env.Manage.{read_one}
use mwaa_controller.Env.LateInit.{late, late_initialize_from, incomplete_late_initialization}
use mwaa_controller.Env.LateInit.{late_initialize, finish_late, after_read}

late-late : {X : Type 0} (o l : Option X) → late o (late o l) ≡ late o l
late-late none l = refl
late-late (some v) none = refl
late-late (some v) (some w) = refl

-- Late initialization from the same observed resource a second time changes nothing.
pub late_initialize_from_idempotent :
    (observed latest : Environment)
    → late_initialize_from observed (late_initialize_from observed latest)
      ≡ late_initialize_from observed latest
unfolding late_initialize_from
late_initialize_from_idempotent observed latest =
    let o = observed.spec in
    let l = latest.spec in
    rw (
      late-late o.airflow_version l.airflow_version,
      late-late o.endpoint_management l.endpoint_management,
      late-late o.environment_class l.environment_class,
      late-late o.logging_configuration l.logging_configuration,
      late-late o.max_webservers l.max_webservers,
      late-late o.max_workers l.max_workers,
      late-late o.min_webservers l.min_webservers,
      late-late o.min_workers l.min_workers,
      late-late o.schedulers l.schedulers,
      late-late o.webserver_access_mode l.webserver_access_mode,
      late-late o.weekly_maintenance_window_start l.weekly_maintenance_window_start,
    )

-- The third spec is the second one, in which what is empty of the fields that the service chooses
-- is filled from the first one; nothing else of it differs.
pub record Filled (observed copy filled : EnvironmentSpec) : Type 0 where
  pub airflow_configuration_options :
      filled.airflow_configuration_options ≡ copy.airflow_configuration_options
  pub airflow_version :
      filled.airflow_version
      ≡ (if is_some copy.airflow_version then copy.airflow_version else observed.airflow_version)
  pub dag_s3_path : filled.dag_s3_path ≡ copy.dag_s3_path
  pub endpoint_management : filled.endpoint_management ≡ (
      if is_some copy.endpoint_management
      then copy.endpoint_management
      else observed.endpoint_management)
  pub environment_class : filled.environment_class ≡ (
      if is_some copy.environment_class then copy.environment_class else observed.environment_class)
  pub execution_role_arn : filled.execution_role_arn ≡ copy.execution_role_arn
  pub execution_role_ref : filled.execution_role_ref ≡ copy.execution_role_ref
  pub kms_key : filled.kms_key ≡ copy.kms_key
  pub kms_key_ref : filled.kms_key_ref ≡ copy.kms_key_ref
  pub logging_configuration : filled.logging_configuration ≡ (
      if is_some copy.logging_configuration
      then copy.logging_configuration
      else observed.logging_configuration)
  pub max_webservers :
      filled.max_webservers
      ≡ (if is_some copy.max_webservers then copy.max_webservers else observed.max_webservers)
  pub max_workers :
      filled.max_workers
      ≡ (if is_some copy.max_workers then copy.max_workers else observed.max_workers)
  pub min_webservers :
      filled.min_webservers
      ≡ (if is_some copy.min_webservers then copy.min_webservers else observed.min_webservers)
  pub min_workers :
      filled.min_workers
      ≡ (if is_some copy.min_workers then copy.min_workers else observed.min_workers)
  pub name : filled.name ≡ copy.name
  pub network_configuration : filled.network_configuration ≡ copy.network_configuration
  pub plugins_s3_object_version : filled.plugins_s3_object_version ≡ copy.plugins_s3_object_version
  pub plugins_s3_path : filled.plugins_s3_path ≡ copy.plugins_s3_path
  pub requirements_s3_object_version :
      filled.requirements_s3_object_version ≡ copy.requirements_s3_object_version
  pub requirements_s3_path : filled.requirements_s3_path ≡ copy.requirements_s3_path
  pub schedulers :
      filled.schedulers ≡ (if is_some copy.schedulers then copy.schedulers else observed.schedulers)
  pub source_bucket_arn : filled.source_bucket_arn ≡ copy.source_bucket_arn
  pub source_bucket_ref : filled.source_bucket_ref ≡ copy.source_bucket_ref
  pub startup_script_s3_object_version :
      filled.startup_script_s3_object_version ≡ copy.startup_script_s3_object_version
  pub startup_script_s3_path : filled.startup_script_s3_path ≡ copy.startup_script_s3_path
  pub tags : filled.tags ≡ copy.tags
  pub webserver_access_mode : filled.webserver_access_mode ≡ (
      if is_some copy.webserver_access_mode
      then copy.webserver_access_mode
      else observed.webserver_access_mode)
  pub weekly_maintenance_window_start : filled.weekly_maintenance_window_start ≡ (
      if is_some copy.weekly_maintenance_window_start
      then copy.weekly_maintenance_window_start
      else observed.weekly_maintenance_window_start)

-- Every field that the service chooses is set.
abbrev pub IsComplete : EnvironmentSpec → Type 0
IsComplete s =
    (is_some s.airflow_version ≡ true)
    × (is_some s.endpoint_management ≡ true)
    × (is_some s.environment_class ≡ true)
    × (is_some s.logging_configuration ≡ true)
    × (is_some s.max_webservers ≡ true)
    × (is_some s.max_workers ≡ true)
    × (is_some s.min_webservers ≡ true)
    × (is_some s.min_workers ≡ true)
    × (is_some s.schedulers ≡ true)
    × (is_some s.webserver_access_mode ≡ true)
    × (is_some s.weekly_maintenance_window_start ≡ true)

late_lem : {X : Type 0} (o l : Option X) → late o l ≡ (if is_some l then l else o)
late_lem none none = refl
late_lem none (some w) = refl
late_lem (some v) none = refl
late_lem (some v) (some w) = refl

late_initialize_from-Filled :
    (observed copy : Environment)
    → Filled observed.spec copy.spec (late_initialize_from observed copy).spec
unfolding late_initialize_from
late_initialize_from-Filled observed copy =
    let o = observed.spec in
    let l = copy.spec in
    record {
      airflow_configuration_options = refl;
      airflow_version = late_lem o.airflow_version l.airflow_version;
      dag_s3_path = refl;
      endpoint_management = late_lem o.endpoint_management l.endpoint_management;
      environment_class = late_lem o.environment_class l.environment_class;
      execution_role_arn = refl;
      execution_role_ref = refl;
      kms_key = refl;
      kms_key_ref = refl;
      logging_configuration = late_lem o.logging_configuration l.logging_configuration;
      max_webservers = late_lem o.max_webservers l.max_webservers;
      max_workers = late_lem o.max_workers l.max_workers;
      min_webservers = late_lem o.min_webservers l.min_webservers;
      min_workers = late_lem o.min_workers l.min_workers;
      name = refl;
      network_configuration = refl;
      plugins_s3_object_version = refl;
      plugins_s3_path = refl;
      requirements_s3_object_version = refl;
      requirements_s3_path = refl;
      schedulers = late_lem o.schedulers l.schedulers;
      source_bucket_arn = refl;
      source_bucket_ref = refl;
      startup_script_s3_object_version = refl;
      startup_script_s3_path = refl;
      tags = refl;
      webserver_access_mode = late_lem o.webserver_access_mode l.webserver_access_mode;
      weekly_maintenance_window_start =
          late_lem o.weekly_maintenance_window_start l.weekly_maintenance_window_start;
    }

late_initialize_from-others :
    (observed copy : Environment) (cs : List Condition)
    → ((late_initialize_from observed copy).meta ≡ copy.meta)
      × ((with_conditions (late_initialize_from observed copy) cs).status
          ≡ (with_conditions copy cs).status)
unfolding late_initialize_from
late_initialize_from-others observed copy cs = (refl, refl)

all_set-IsComplete :
    (r : Environment) → incomplete_late_initialization r ≡ false → IsComplete r.spec
unfolding incomplete_late_initialization
all_set-IsComplete r h = ground arith

one_empty-IsComplete :
    (r : Environment) → incomplete_late_initialization r ≡ true → ¬ IsComplete r.spec
unfolding incomplete_late_initialization
one_empty-IsComplete r h all = ground arith

-- No error where every field is set, and else another try in five seconds.
abbrev pub Ends : (E : Errors) → EnvironmentSpec → Option E.Error → Type 0
Ends E s e =
    (IsComplete s × (e ≡ none)) ⊎ ((¬ IsComplete s) × (e ≡ some (E.needed_after none 5000000000)))

module _ (E : Errors) (K : Conditions) (rm : Manager) (P : Pointers) (C : Client E) where
  finish_late_lem :
      (r : Environment)
      → ((finish_late E K r).0 ≡ with_conditions r (conditions_of (finish_late E K r).0))
        × Ends E r.spec (finish_late E K r).1
  unfolding finish_late
  finish_late_lem r = elim (Bool-cases (incomplete_late_initialization r)) [
    | inl more ↦ rw more (refl, inr (one_empty-IsComplete r more, refl))
    | inr complete ↦ rw complete (refl, inl (all_set-IsComplete r complete, refl))
  ]

  -- If `ReadOne` for the latest resource returns the observed one with no error, then
  -- `LateInitialize` returns the copy that was read for, in which each of the eleven fields that
  -- the service chooses has the value of the copy if there is one and else the observed one, and
  -- nothing else but the conditions differs. It returns no error if all eleven are set, and else
  -- the error that asks for another try in five seconds.
  pub late_initialize_read :
      (latest observed copy : Environment) (cloud : Cloud E C)
      → (read_one E rm K P C (some latest) cloud).0 ≡ returns ((some observed, none), copy)
      → (r : Environment) × (e : Option E.Error) × ((late_initialize E K rm P C latest cloud).0
          ≡ returns (r, e))
        × Filled observed.spec copy.spec r.spec
        × (r.meta ≡ copy.meta)
        × (r.status ≡ (with_conditions copy (conditions_of r)).status)
        × Ends E r.spec e
  unfolding late_initialize
  late_initialize_read latest observed copy cloud read =
      let filled = late_initialize_from observed copy in
      let (r, e) = finish_late E K filled in
      let (same, ends) = finish_late_lem filled in
      let (meta, status) = late_initialize_from-others observed copy (conditions_of r) in
      let spec : r.spec ≡ filled.spec = ap (λ x. x.spec) same in
      (
        r,
        e,
        ap (λ x. x >>= after_read E K) read,
        subst (Filled observed.spec copy.spec) (sym spec)
            (late_initialize_from-Filled observed copy),
        ap (λ x. x.meta) same ∙ meta,
        ap (λ x. x.status) same ∙ status,
        subst (λ s. Ends E s e) (sym spec) ends,
      )
