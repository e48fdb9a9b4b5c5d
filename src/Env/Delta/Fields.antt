-- ===== src/Env/Delta/Fields.antt =====
-- The comparison of one field (pkg/resource/environment/delta.go), by the shape of its type.
use mwaa_controller.Common.{String, Bool, false, not, Option, some, List, [], ◌∷◌}
use mwaa_controller.Common.{◌++◌, ◌<>◌, Eq, ◌==◌, string_eq, bool_eq, if◌then◌else◌, elements}
use mwaa_controller.Common.{length, nat_eq}
use mwaa_controller.Api.{EnvironmentSpec, ResourceRef, LoggingConfigurationInput}
use mwaa_controller.Api.{ModuleLoggingConfigurationInput, NetworkConfiguration}
use mwaa_controller.Ext.Compare.{Compare, Difference, Subject}

-- `delta.Add(path, a, b)`
abbrev pub differs : {A : Type 0} → (A → Subject) → String → A → A → List Difference
differs subject path a b = record { path = path; a = subject a; b = subject b } ∷ []

abbrev pub concat {ℓ} : {A : Type ℓ} → List (List A) → List A
concat [] = []
concat (xs ∷ xss) = xs ++ concat xss

-- `a != nil && b != nil && *a != *b`
abbrev pub values_differ : {A : Type 0} ⦃e : Eq A⦄ → Option A → Option A → Bool
values_differ (some x) (some y) = not (x == y)
values_differ _ _ = false

module _ (Q : Compare) where
  -- A pointer to a string, a number or a boolean.
  unfoldable pub compare_ptr :
      {A : Type 0} ⦃e : Eq A⦄
      → (Option A → Subject)
      → String
      → Option A
      → Option A
      → List Difference
  compare_ptr subject path a b =
      if Q.has_nil_difference a b
      then differs subject path a b
      else if values_differ a b
      then differs subject path a b
      else []

  -- A reference wrapper.
  unfoldable pub compare_ref : String → Option ResourceRef → Option ResourceRef → List Difference
  compare_ref path a b = if not (Q.deep_equal a b) then differs Subject.ref path a b else []

  -- Both pointers are set, and `f` compares what they point to.
  abbrev pub when_both :
      {A : Type 0} → (A → A → List Difference) → Option A → Option A → List Difference
  when_both f (some a) (some b) = f a b
  when_both f _ _ = []

  -- The logs of one module.
  unfoldable pub compare_module_logs :
      String
      → Option ModuleLoggingConfigurationInput
      → Option ModuleLoggingConfigurationInput
      → List Difference
  unfolding compare_ptr
  compare_module_logs path a b =
      if Q.has_nil_difference a b
      then differs Subject.module_logging path a b
      else when_both
          (λ x y.
            compare_ptr Subject.flag (path <> ".Enabled") x.enabled y.enabled
            ++ compare_ptr Subject.text (path <> ".LogLevel") x.log_level y.log_level)
          a b

  unfoldable pub compare_logging :
      Option LoggingConfigurationInput → Option LoggingConfigurationInput → List Difference
  unfolding compare_module_logs
  compare_logging a b =
      if Q.has_nil_difference a b
      then differs Subject.logging "Spec.LoggingConfiguration" a b
      else when_both
          (λ x y. concat (
            compare_module_logs "Spec.LoggingConfiguration.DagProcessingLogs" x.dag_processing_logs
              y.dag_processing_logs
            ∷ compare_module_logs "Spec.LoggingConfiguration.SchedulerLogs" x.scheduler_logs
                y.scheduler_logs
            ∷ compare_module_logs "Spec.LoggingConfiguration.TaskLogs" x.task_logs y.task_logs
            ∷ compare_module_logs "Spec.LoggingConfiguration.WebserverLogs" x.webserver_logs
                y.webserver_logs
            ∷ compare_module_logs "Spec.LoggingConfiguration.WorkerLogs" x.worker_logs y.worker_logs
            ∷ []))
          a b

  -- A slice of string pointers: the lengths, and the elements if there are any.
  unfoldable pub compare_ids :
      String → Option (List (Option String)) → Option (List (Option String)) → List Difference
  compare_ids path a b =
      if not (length (elements a) == length (elements b))
      then differs Subject.texts path a b
      else if not (length (elements a) == 0)
      then (if not (Q.slice_string_p_equal (elements a) (elements b))
          then differs Subject.texts path a b
          else [])
      else []

  unfoldable pub compare_network :
      Option NetworkConfiguration → Option NetworkConfiguration → List Difference
  unfolding compare_ids
  compare_network a b =
      if Q.has_nil_difference a b
      then differs Subject.network "Spec.NetworkConfiguration" a b
      else when_both
          (λ x y.
            compare_ids "Spec.NetworkConfiguration.SecurityGroupIDs" x.security_group_ids
              y.security_group_ids
            ++ compare_ids "Spec.NetworkConfiguration.SubnetIDs" x.subnet_ids y.subnet_ids)
          a b

  -- `customPreCompare` (hooks.go): the values are left out of the difference.
  unfoldable pub custom_pre_compare : EnvironmentSpec → EnvironmentSpec → List Difference
  custom_pre_compare a b =
      let x = elements a.airflow_configuration_options in
      let y = elements b.airflow_configuration_options in
      let redacted =
        differs (λ (_ : Unit {0}). Subject.nil) "Spec.AirflowConfigurationOptions" tt tt in
      if not (length x == length y)
      then redacted
      else if not (length x == 0)
      then (if not (Q.map_string_string_p_equal x y) then redacted else [])
      else []
