-- ===== src/Env/Delta/Parts.antt =====
-- When the comparison of one field finds nothing.
use mwaa_controller.Common.{String, ◌≡◌, refl, sym, ◌∙◌, ◌↔◌, true, false, Option, none, some}
use mwaa_controller.Common.{List, [], ◌∷◌, ◌<>◌, arith, Eq, string_eq, bool_eq, elements}
use mwaa_controller.Common.{All, length, append-eq-nil, nat_eq, inl, inr, Bool-cases}
use mwaa_controller.Common.Dict.{Dict, lookup, NodupKeys, SameEntries}
use mwaa_controller.Common.Dict.Size.{length-eq_of_SameEntries}
use mwaa_controller.Api.{EnvironmentSpec, ResourceRef, LoggingConfigurationInput}
use mwaa_controller.Api.{ModuleLoggingConfigurationInput, NetworkConfiguration}
use mwaa_controller.Ext.Compare.{Compare, CompareIsLawful, Subject}
use mwaa_controller.Env.TagFields.Lookup.{tag_at, lookup-convert, convert-NodupKeys}
use mwaa_controller.Env.TagFields.{convert_to_ordered_ack_tags}
use mwaa_controller.Env.Delta.{compare_ptr, compare_ref, compare_module_logs, compare_logging}
use mwaa_controller.Env.Delta.{
  concat, compare_ids, compare_network, compare_tags, custom_pre_compare,
}
use mathlib.Core.Bool.{xor}

pub concat-eq-nil {ℓ} :
    {A : Type ℓ} (xss : List (List A)) → (concat xss ≡ []) ↔ All (λ xs. xs ≡ []) xss
concat-eq-nil [] = (λ _. tt, λ _. refl)
concat-eq-nil (xs ∷ xss) = ground (arith, append-eq-nil xs (concat xss), concat-eq-nil xss)

lookup-eq-none_of_length : {V : Type 0} (d : Dict V) (k : String) → length d ≡ 0 → lookup k d ≡ none
lookup-eq-none_of_length [] k h = refl
lookup-eq-none_of_length (e ∷ d) k h = absurd (omega arith)

module _ (Q : Compare) where
  abbrev pub IdsMatch : Option (List (Option String)) → Option (List (Option String)) → Type 0
  IdsMatch a b =
      (length (elements a) ≡ length (elements b))
      × (Q.slice_string_p_equal (elements a) (elements b) ≡ true)

  abbrev pub NetworkMatches : Option NetworkConfiguration → Option NetworkConfiguration → Type 0
  NetworkMatches none none = Unit
  NetworkMatches (some x) (some y) =
      IdsMatch x.security_group_ids y.security_group_ids × IdsMatch x.subnet_ids y.subnet_ids
  NetworkMatches _ _ = ⊥

module _ (Q : Compare) (L : CompareIsLawful Q) where
  nil_none : (A : Type 0) → Q.has_nil_difference {A = A} none none ≡ false
  unfolding xor
  nil_none A = L.nil_difference {A = A} none none

  nil_left : (A : Type 0) (y : A) → Q.has_nil_difference none (some y) ≡ true
  unfolding xor
  nil_left A y = L.nil_difference none (some y)

  nil_right : (A : Type 0) (x : A) → Q.has_nil_difference (some x) none ≡ true
  unfolding xor
  nil_right A x = L.nil_difference (some x) none

  nil_both : (A : Type 0) (x y : A) → Q.has_nil_difference (some x) (some y) ≡ false
  unfolding xor
  nil_both A x y = L.nil_difference (some x) (some y)

  pub compare_ptr-eq-nil :
      {A : Type 0} ⦃e : Eq A⦄ (subject : Option A → Subject) (path : String) (a b : Option A)
      → (compare_ptr Q subject path a b ≡ []) ↔ (a ≡ b)
  unfolding compare_ptr
  compare_ptr-eq-nil {A} subject path none none = ground (arith, nil_none A)
  compare_ptr-eq-nil {A} subject path none (some y) = ground (arith, nil_left A y)
  compare_ptr-eq-nil {A} subject path (some x) none = ground (arith, nil_right A x)
  compare_ptr-eq-nil {A} subject path (some x) (some y) = ground (arith, nil_both A x y)

  pub compare_ref-eq-nil :
      (path : String) (a b : Option ResourceRef) → (compare_ref Q path a b ≡ []) ↔ (a ≡ b)
  unfolding compare_ref
  compare_ref-eq-nil path a b = ground (arith, L.deep_equal_iff a b)

  compare_module_logs-eq-nil :
      (path : String) (a b : Option ModuleLoggingConfigurationInput)
      → (compare_module_logs Q path a b ≡ []) ↔ (a ≡ b)
  unfolding compare_module_logs
  compare_module_logs-eq-nil path none none =
      ground (arith, nil_none ModuleLoggingConfigurationInput)
  compare_module_logs-eq-nil path none (some y) =
      ground (arith, nil_left ModuleLoggingConfigurationInput y)
  compare_module_logs-eq-nil path (some x) none =
      ground (arith, nil_right ModuleLoggingConfigurationInput x)
  compare_module_logs-eq-nil path (some x) (some y) = ground (
    arith,
    nil_both ModuleLoggingConfigurationInput x y,
    append-eq-nil (compare_ptr Q Subject.flag (path <> ".Enabled") x.enabled y.enabled)
        (compare_ptr Q Subject.text (path <> ".LogLevel") x.log_level y.log_level),
    compare_ptr-eq-nil Subject.flag (path <> ".Enabled") x.enabled y.enabled,
    compare_ptr-eq-nil Subject.text (path <> ".LogLevel") x.log_level y.log_level,
  )

  pub compare_logging-eq-nil :
      (a b : Option LoggingConfigurationInput) → (compare_logging Q a b ≡ []) ↔ (a ≡ b)
  unfolding compare_logging
  compare_logging-eq-nil none none = ground (arith, nil_none LoggingConfigurationInput)
  compare_logging-eq-nil none (some y) = ground (arith, nil_left LoggingConfigurationInput y)
  compare_logging-eq-nil (some x) none = ground (arith, nil_right LoggingConfigurationInput x)
  compare_logging-eq-nil (some x) (some y) = ground (
    arith,
    nil_both LoggingConfigurationInput x y,
    concat-eq-nil (
        compare_module_logs Q "Spec.LoggingConfiguration.DagProcessingLogs" x.dag_processing_logs
          y.dag_processing_logs
        ∷ compare_module_logs Q "Spec.LoggingConfiguration.SchedulerLogs" x.scheduler_logs
            y.scheduler_logs
        ∷ compare_module_logs Q "Spec.LoggingConfiguration.TaskLogs" x.task_logs y.task_logs
        ∷ compare_module_logs Q "Spec.LoggingConfiguration.WebserverLogs" x.webserver_logs
            y.webserver_logs
        ∷ compare_module_logs Q "Spec.LoggingConfiguration.WorkerLogs" x.worker_logs y.worker_logs
        ∷ []),
    compare_module_logs-eq-nil "Spec.LoggingConfiguration.DagProcessingLogs" x.dag_processing_logs
        y.dag_processing_logs,
    compare_module_logs-eq-nil "Spec.LoggingConfiguration.SchedulerLogs" x.scheduler_logs
        y.scheduler_logs,
    compare_module_logs-eq-nil "Spec.LoggingConfiguration.TaskLogs" x.task_logs y.task_logs,
    compare_module_logs-eq-nil "Spec.LoggingConfiguration.WebserverLogs" x.webserver_logs
        y.webserver_logs,
    compare_module_logs-eq-nil "Spec.LoggingConfiguration.WorkerLogs" x.worker_logs y.worker_logs,
  )

  compare_ids-eq-nil :
      (path : String) (a b : Option (List (Option String)))
      → (compare_ids Q path a b ≡ []) ↔ IdsMatch Q a b
  unfolding compare_ids
  compare_ids-eq-nil path none none = ground (arith, L.slice_p_equal_refl [])
  compare_ids-eq-nil path none (some []) = ground (arith, L.slice_p_equal_refl [])
  compare_ids-eq-nil path none (some (y ∷ ys)) = ground arith
  compare_ids-eq-nil path (some []) none = ground (arith, L.slice_p_equal_refl [])
  compare_ids-eq-nil path (some []) (some []) = ground (arith, L.slice_p_equal_refl [])
  compare_ids-eq-nil path (some []) (some (y ∷ ys)) = ground arith
  compare_ids-eq-nil path (some (x ∷ xs)) none = ground arith
  compare_ids-eq-nil path (some (x ∷ xs)) (some []) = ground arith
  compare_ids-eq-nil path (some (x ∷ xs)) (some (y ∷ ys)) = ground arith

  pub compare_network-eq-nil :
      (a b : Option NetworkConfiguration) → (compare_network Q a b ≡ []) ↔ NetworkMatches Q a b
  unfolding compare_network
  compare_network-eq-nil none none = ground (arith, nil_none NetworkConfiguration)
  compare_network-eq-nil none (some y) = ground (arith, nil_left NetworkConfiguration y)
  compare_network-eq-nil (some x) none = ground (arith, nil_right NetworkConfiguration x)
  compare_network-eq-nil (some x) (some y) = ground (
    arith,
    nil_both NetworkConfiguration x y,
    append-eq-nil
        (compare_ids Q "Spec.NetworkConfiguration.SecurityGroupIDs" x.security_group_ids
          y.security_group_ids)
        (compare_ids Q "Spec.NetworkConfiguration.SubnetIDs" x.subnet_ids y.subnet_ids),
    compare_ids-eq-nil "Spec.NetworkConfiguration.SecurityGroupIDs" x.security_group_ids
        y.security_group_ids,
    compare_ids-eq-nil "Spec.NetworkConfiguration.SubnetIDs" x.subnet_ids y.subnet_ids,
  )

  pub compare_tags-eq-nil :
      (a b : EnvironmentSpec)
      → NodupKeys (elements a.tags)
      → NodupKeys (elements b.tags)
      → (compare_tags Q a b ≡ []) ↔ ((k : String) → tag_at k a.tags ≡ tag_at k b.tags)
  unfolding compare_tags
  compare_tags-eq-nil a b u w =
      let d = (convert_to_ordered_ack_tags a.tags).0 in
      let e = (convert_to_ordered_ack_tags b.tags).0 in
      let iff = L.map_equal_iff d e (convert-NodupKeys a.tags) (convert-NodupKeys b.tags) in
      (
        λ h k. sym (lookup-convert k a.tags u) ∙ iff.0 (ground arith) k ∙ lookup-convert k b.tags w,
        λ same.
            let e : Q.map_string_string_equal d e ≡ true =
              iff.1 (λ k. lookup-convert k a.tags u ∙ same k ∙ sym (lookup-convert k b.tags w)) in
            ground arith,
      )

  custom_pre_compare_sound :
      (a b : EnvironmentSpec)
      → (Q.map_string_string_p_equal
              (elements a.airflow_configuration_options)
              (elements b.airflow_configuration_options)
            ≡ true
          → SameEntries
              (elements a.airflow_configuration_options)
              (elements b.airflow_configuration_options))
      → custom_pre_compare Q a b ≡ []
      → SameEntries
          (elements a.airflow_configuration_options)
          (elements b.airflow_configuration_options)
  unfolding custom_pre_compare
  custom_pre_compare_sound a b f h =
      let d = elements a.airflow_configuration_options in
      let e = elements b.airflow_configuration_options in
      elim (Bool-cases (Q.map_string_string_p_equal d e)) [
        | inl equal ↦ f equal
        | inr differ ↦ λ k.
            let both : (length d ≡ 0) × (length e ≡ 0) = ground arith in
            lookup-eq-none_of_length d k both.0 ∙ sym (lookup-eq-none_of_length e k both.1)
      ]

  pub custom_pre_compare-eq-nil :
      (a b : EnvironmentSpec)
      → NodupKeys (elements a.airflow_configuration_options)
      → NodupKeys (elements b.airflow_configuration_options)
      → (custom_pre_compare Q a b ≡ [])
        ↔ SameEntries
            (elements a.airflow_configuration_options)
            (elements b.airflow_configuration_options)
  unfolding custom_pre_compare
  custom_pre_compare-eq-nil a b u w =
      let d = elements a.airflow_configuration_options in
      let e = elements b.airflow_configuration_options in
      let iff = L.map_p_equal_iff d e u w in
      (
        λ h. custom_pre_compare_sound a b iff.0 h,
        λ same.
            let equal : Q.map_string_string_p_equal d e ≡ true = iff.1 same in
            let sizes : length d ≡ length e = length-eq_of_SameEntries d e u w same in ground arith,
      )
