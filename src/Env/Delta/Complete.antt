-- ===== src/Env/Delta/Complete.antt =====
-- The comparison finds no difference exactly between specs that match.
use mwaa_controller.Common.{String, ◌≡◌, ◌↔◌, [], All, append-eq-nil, string_eq}
use mwaa_controller.Common.Int.{int_eq}
use mwaa_controller.Api.{EnvironmentSpec}
use mwaa_controller.Ext.Compare.{Compare, CompareIsLawful, Subject}
use mwaa_controller.Env.Delta.{concat, custom_pre_compare, comparisons, differences}
use mwaa_controller.Env.Delta.Parts.{compare_ptr-eq-nil, compare_ref-eq-nil, compare_logging-eq-nil}
use mwaa_controller.Env.Delta.Parts.{compare_network-eq-nil, compare_tags-eq-nil}
use mwaa_controller.Env.Delta.Parts.{custom_pre_compare-eq-nil, concat-eq-nil}
use mwaa_controller.Env.Delta.Matches.{HasMaps, SpecMatches, parts, match_iff}
use mwaa_controller.Env.Delta.{compare_ptr}
use mwaa_controller.Common.{Option}
use mwaa_controller.Common.Int.{ℤ}

infixr 5 ◌&◌
-- Two equivalences, part by part.
◌&◌ : {A B C D : Type 0} → (A ↔ B) → (C ↔ D) → ((A × C) ↔ (B × D))
p & q = ((λ x. (p.0 x.0, q.0 x.1)), (λ y. (p.1 y.0, q.1 y.1)))

module _ (Q : Compare) (L : CompareIsLawful Q) (a b : EnvironmentSpec) where
  text :
      (path : String) (x y : Option String) → (compare_ptr Q Subject.text path x y ≡ []) ↔ (x ≡ y)
  text path = compare_ptr-eq-nil Q L Subject.text path

  number : (path : String) (x y : Option ℤ) → (compare_ptr Q Subject.number path x y ≡ []) ↔ (x ≡ y)
  number path = compare_ptr-eq-nil Q L Subject.number path

  nothing : Unit {0} ↔ Unit {0}
  nothing = ((λ h. h), (λ h. h))

  module _ (u : HasMaps a) (w : HasMaps b) where
    comparisons_iff : All (λ xs. xs ≡ []) (comparisons Q a b) ↔ All (λ t. t) (parts Q a b)
    unfolding comparisons
    comparisons_iff =
        text "Spec.AirflowVersion" a.airflow_version b.airflow_version
        & text "Spec.DagS3Path" a.dag_s3_path b.dag_s3_path
        & text "Spec.EndpointManagement" a.endpoint_management b.endpoint_management
        & text "Spec.EnvironmentClass" a.environment_class b.environment_class
        & text "Spec.ExecutionRoleARN" a.execution_role_arn b.execution_role_arn
        & compare_ref-eq-nil Q L "Spec.ExecutionRoleRef" a.execution_role_ref b.execution_role_ref
        & text "Spec.KMSKey" a.kms_key b.kms_key
        & compare_ref-eq-nil Q L "Spec.KMSKeyRef" a.kms_key_ref b.kms_key_ref
        & compare_logging-eq-nil Q L a.logging_configuration b.logging_configuration
        & number "Spec.MaxWebservers" a.max_webservers b.max_webservers
        & number "Spec.MaxWorkers" a.max_workers b.max_workers
        & number "Spec.MinWebservers" a.min_webservers b.min_webservers
        & number "Spec.MinWorkers" a.min_workers b.min_workers
        & text "Spec.Name" a.name b.name
        & compare_network-eq-nil Q L a.network_configuration b.network_configuration
        & text "Spec.PluginsS3ObjectVersion" a.plugins_s3_object_version b.plugins_s3_object_version
        & text "Spec.PluginsS3Path" a.plugins_s3_path b.plugins_s3_path
        & text "Spec.RequirementsS3ObjectVersion" a.requirements_s3_object_version
            b.requirements_s3_object_version
        & text "Spec.RequirementsS3Path" a.requirements_s3_path b.requirements_s3_path
        & number "Spec.Schedulers" a.schedulers b.schedulers
        & text "Spec.SourceBucketARN" a.source_bucket_arn b.source_bucket_arn
        & compare_ref-eq-nil Q L "Spec.SourceBucketRef" a.source_bucket_ref b.source_bucket_ref
        & text "Spec.StartupScriptS3ObjectVersion" a.startup_script_s3_object_version
            b.startup_script_s3_object_version
        & text "Spec.StartupScriptS3Path" a.startup_script_s3_path b.startup_script_s3_path
        & compare_tags-eq-nil Q L a b u.tags w.tags
        & text "Spec.WebserverAccessMode" a.webserver_access_mode b.webserver_access_mode
        & text "Spec.WeeklyMaintenanceWindowStart" a.weekly_maintenance_window_start
            b.weekly_maintenance_window_start
        & nothing

    -- For two specs whose options and tags are maps, and comparators that do as documented,
    -- `newResourceDelta` adds no difference exactly if the two specs match: equal fields, the same
    -- options, the same tags with nil read as an empty value, and equal references and lists of
    -- identifiers as the comparators see them.
    pub differences-eq-nil : (differences Q a b ≡ []) ↔ SpecMatches Q a b
    unfolding differences
    differences-eq-nil =
        let custom = custom_pre_compare Q a b in
        let fields = concat (comparisons Q a b) in
        let options = custom_pre_compare-eq-nil Q L a b u.options w.options in
        let iff = concat-eq-nil (comparisons Q a b) in
        let split = append-eq-nil custom fields in
        let by_part = comparisons_iff in
        let fields_match = match_iff Q a b in
        (
          λ h. (options.0 (split.0 h).0, fields_match.1 (by_part.0 (iff.0 (split.0 h).1))),
          λ h. split.1 (options.1 h.0, iff.1 (by_part.1 (fields_match.0 h.1))),
        )
