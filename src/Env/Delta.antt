-- ===== src/Env/Delta.antt =====
-- pkg/resource/environment/delta.go and `customPreCompare` of hooks.go: the comparison of two
-- resources. `differences` lists the calls of `delta.Add` in their order, and `new_resource_delta`
-- makes them.
mod Fields
pub mod Parts
pub mod Matches
pub mod Complete
pub mod Redaction
mod Tests
unfoldable pub use Fields.*
use mwaa_controller.Common.{String, Option, none, some, List, [], ◌∷◌, ◌++◌, ◌<>◌, elements}
use mwaa_controller.Common.{string_eq, bool_eq, Outcome, returns, panics, if◌then◌else◌, not}
use mwaa_controller.Common.Int.{int_eq}
use mwaa_controller.Api.{Environment, EnvironmentSpec}
use mwaa_controller.Ext.Compare.{Compare, Deltas, Difference, Subject}
use mwaa_controller.Env.TagFields.{convert_to_ordered_ack_tags}
use mathlib.Core.List.{foldl}

module _ (Q : Compare) where
  -- `!ackcompare.MapStringStringEqual(desiredACKTags, latestACKTags)`
  unfoldable pub compare_tags : EnvironmentSpec → EnvironmentSpec → List Difference
  compare_tags a b =
      let (desired_ack_tags, _) = convert_to_ordered_ack_tags a.tags in
      let (latest_ack_tags, _) = convert_to_ordered_ack_tags b.tags in
      if not (Q.map_string_string_equal desired_ack_tags latest_ack_tags)
      then differs Subject.text_map "Spec.Tags" a.tags b.tags
      else []

  -- The comparisons of `newResourceDelta` below `customPreCompare`, a list for each field, in the
  -- order of the code.
  unfoldable pub comparisons : EnvironmentSpec → EnvironmentSpec → List (List Difference)
  unfolding compare_ptr compare_ref compare_logging compare_network compare_tags
  comparisons a b =
      compare_ptr Q Subject.text "Spec.AirflowVersion" a.airflow_version b.airflow_version
      ∷ compare_ptr Q Subject.text "Spec.DagS3Path" a.dag_s3_path b.dag_s3_path
      ∷ compare_ptr Q Subject.text "Spec.EndpointManagement" a.endpoint_management
          b.endpoint_management
      ∷ compare_ptr Q Subject.text "Spec.EnvironmentClass" a.environment_class b.environment_class
      ∷ compare_ptr Q Subject.text "Spec.ExecutionRoleARN" a.execution_role_arn b.execution_role_arn
      ∷ compare_ref Q "Spec.ExecutionRoleRef" a.execution_role_ref b.execution_role_ref
      ∷ compare_ptr Q Subject.text "Spec.KMSKey" a.kms_key b.kms_key
      ∷ compare_ref Q "Spec.KMSKeyRef" a.kms_key_ref b.kms_key_ref
      ∷ compare_logging Q a.logging_configuration b.logging_configuration
      ∷ compare_ptr Q Subject.number "Spec.MaxWebservers" a.max_webservers b.max_webservers
      ∷ compare_ptr Q Subject.number "Spec.MaxWorkers" a.max_workers b.max_workers
      ∷ compare_ptr Q Subject.number "Spec.MinWebservers" a.min_webservers b.min_webservers
      ∷ compare_ptr Q Subject.number "Spec.MinWorkers" a.min_workers b.min_workers
      ∷ compare_ptr Q Subject.text "Spec.Name" a.name b.name
      ∷ compare_network Q a.network_configuration b.network_configuration
      ∷ compare_ptr Q Subject.text "Spec.PluginsS3ObjectVersion" a.plugins_s3_object_version
          b.plugins_s3_object_version
      ∷ compare_ptr Q Subject.text "Spec.PluginsS3Path" a.plugins_s3_path b.plugins_s3_path
      ∷ compare_ptr Q Subject.text "Spec.RequirementsS3ObjectVersion"
          a.requirements_s3_object_version b.requirements_s3_object_version
      ∷ compare_ptr Q Subject.text "Spec.RequirementsS3Path" a.requirements_s3_path
          b.requirements_s3_path
      ∷ compare_ptr Q Subject.number "Spec.Schedulers" a.schedulers b.schedulers
      ∷ compare_ptr Q Subject.text "Spec.SourceBucketARN" a.source_bucket_arn b.source_bucket_arn
      ∷ compare_ref Q "Spec.SourceBucketRef" a.source_bucket_ref b.source_bucket_ref
      ∷ compare_ptr Q Subject.text "Spec.StartupScriptS3ObjectVersion"
          a.startup_script_s3_object_version b.startup_script_s3_object_version
      ∷ compare_ptr Q Subject.text "Spec.StartupScriptS3Path" a.startup_script_s3_path
          b.startup_script_s3_path
      ∷ compare_tags a b
      ∷ compare_ptr Q Subject.text "Spec.WebserverAccessMode" a.webserver_access_mode
          b.webserver_access_mode
      ∷ compare_ptr Q Subject.text "Spec.WeeklyMaintenanceWindowStart"
          a.weekly_maintenance_window_start b.weekly_maintenance_window_start
      ∷ []

  -- What `newResourceDelta` adds to the delta of two resources that are not nil.
  unfoldable pub differences : EnvironmentSpec → EnvironmentSpec → List Difference
  differences a b = custom_pre_compare Q a b ++ concat (comparisons a b)

  -- `newResourceDelta`; two nil resources are dereferenced by `customPreCompare`.
  unfoldable pub new_resource_delta :
      (D : Deltas) → Option Environment → Option Environment → Outcome D.Delta
  new_resource_delta D (some a) (some b) =
      returns (foldl D.add D.new_delta (differences a.spec b.spec))
  new_resource_delta D none none = panics "nil pointer dereference"
  new_resource_delta D a b =
      returns
        (D.add D.new_delta (record { path = ""; a = Subject.resource a; b = Subject.resource b }))
