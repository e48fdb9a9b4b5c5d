-- ===== src/Env/Delta/Redaction.antt =====
-- `customPreCompare` keeps the Airflow configuration options out of the delta.
use mwaa_controller.Common.{String, ◌≡◌, ◌↔◌, Option, [], ◌∷◌, ◌++◌, arith, ap}
use mwaa_controller.Common.{nat_eq, ◌⊎◌}
use mwaa_controller.Common.Dict.{Dict}
use mwaa_controller.Api.{EnvironmentSpec}
use mwaa_controller.Ext.Compare.{Compare, Difference, nil}
use mwaa_controller.Env.Delta.{custom_pre_compare, differences, concat, comparisons}

abbrev pub with_options : EnvironmentSpec → Option (Dict (Option String)) → EnvironmentSpec
with_options a options = record a { airflow_configuration_options = options }

-- The difference with no values.
abbrev pub redacted : Difference
redacted = record { path = "Spec.AirflowConfigurationOptions"; a = nil; b = nil }

module _ (Q : Compare) where
  custom_pre_compare_cases :
      (a b : EnvironmentSpec)
      → (custom_pre_compare Q a b ≡ []) ⊎ (custom_pre_compare Q a b ≡ redacted ∷ [])
  unfolding custom_pre_compare
  custom_pre_compare_cases a b = ground arith

  -- What the delta holds depends on the options of the two specs only through whether they differ:
  -- with other options in their place that differ as well, or that agree as well, it holds the
  -- same differences with the same values.
  pub differences_redacted :
      (a b : EnvironmentSpec) (o p o' p' : Option (Dict (Option String)))
      → (custom_pre_compare Q (with_options a o) (with_options b p) ≡ [])
        ↔ (custom_pre_compare Q (with_options a o') (with_options b p') ≡ [])
      → differences Q (with_options a o) (with_options b p)
        ≡ differences Q (with_options a o') (with_options b p')
  unfolding differences comparisons
  differences_redacted a b o p o' p' same =
      ap (λ xs. xs ++ concat (comparisons Q (with_options a o) (with_options b p)))
        {x = custom_pre_compare Q (with_options a o) (with_options b p)}
        {y = custom_pre_compare Q (with_options a o') (with_options b p')}
        (ground (
          arith,
          custom_pre_compare_cases (with_options a o) (with_options b p),
          custom_pre_compare_cases (with_options a o') (with_options b p'),
        ))
