-- ===== src/Env/Delta/Tests.antt =====
-- The results on the delta, on the sample specs.
use mwaa_controller.Common.{String, ◌≡◌, ◌↔◌, refl, string_eq, Option, some, [], ◌∷◌}
use mwaa_controller.Common.Dict.{Dict}
use mwaa_controller.Api.{EnvironmentSpec}
use mwaa_controller.Env.Delta.{differences, custom_pre_compare}
use mwaa_controller.Env.Delta.Matches.{HasMaps, SpecMatches}
use mwaa_controller.Env.Delta.Complete.{differences-eq-nil}
use mwaa_controller.Env.Delta.Redaction.{with_options, differences_redacted}
use mwaa_controller.Samples.Comparators.{comparators, comparators-IsLawful}
use mwaa_controller.Samples.Resources.{prod_spec}

abbrev observed_spec : EnvironmentSpec
observed_spec = record prod_spec { tags = some (("team", some "ops") ∷ []); name = some "prod" }

prod-HasMaps : HasMaps prod_spec
prod-HasMaps = record { options = (refl, tt); tags = (refl, tt) }

observed-HasMaps : HasMaps observed_spec
observed-HasMaps = record { options = (refl, tt); tags = (refl, tt) }

differences-eq-nil_example :
    (differences comparators prod_spec observed_spec ≡ [])
    ↔ SpecMatches comparators prod_spec observed_spec
differences-eq-nil_example =
    differences-eq-nil comparators comparators-IsLawful prod_spec observed_spec prod-HasMaps
      observed-HasMaps

abbrev one_secret : Option (Dict (Option String))
one_secret = some (("smtp.password", some "one") ∷ [])

abbrev other_secret : Option (Dict (Option String))
other_secret = some (("smtp.password", some "other") ∷ [])

secrets_differ_alike :
    (custom_pre_compare comparators
        (with_options prod_spec one_secret)
        (with_options prod_spec other_secret)
      ≡ [])
    ↔ (custom_pre_compare comparators
          (with_options prod_spec other_secret)
          (with_options prod_spec one_secret)
        ≡ [])
unfolding custom_pre_compare string_eq
secrets_differ_alike = (λ h. cc, λ h. cc)

differences_redacted_example :
    differences comparators
      (with_options prod_spec one_secret)
      (with_options prod_spec other_secret)
    ≡ differences comparators
        (with_options prod_spec other_secret)
        (with_options prod_spec one_secret)
differences_redacted_example =
    differences_redacted comparators prod_spec prod_spec one_secret other_secret other_secret
      one_secret secrets_differ_alike
