-- ===== src/Env/Read/Tests.antt =====
-- The results on `sdkFind`, on the sample environment.
use mwaa_controller.Common.{◌≡◌, refl, string_eq, none, some, [], ◌∷◌, returns, ok}
use mwaa_controller.Env.Delta.{custom_pre_compare}
use mwaa_controller.Env.Read.{
  sdk_find, observe, is_failure_state, set_output, read_status, enum_ptr,
}
use mwaa_controller.Env.Read.Options.{sdk_find_hides_options}
use mwaa_controller.Env.Hooks.{handle_update_failed}
use mwaa_controller.Env.Status.{set_status_defaults}
use mwaa_controller.Samples.Faults.{faults}
use mwaa_controller.Samples.Maps.{pointers}
use mwaa_controller.Samples.Comparators.{comparators, comparators-IsLawful}
use mwaa_controller.Samples.Cloud.{sample_client, cloud_of, sample_conditions}
use mwaa_controller.Samples.Resources.{manager, prod, described}

found :
    (sdk_find faults sample_conditions pointers sample_client manager
      (prod none)
      (cloud_of (ok (some (described "AVAILABLE" none))))).0
    ≡ returns (some (observe pointers manager (prod none) (described "AVAILABLE" none)), none)
unfolding sdk_find observe set_output read_status enum_ptr set_status_defaults is_failure_state
    handle_update_failed string_eq
found = refl

-- The service's "core.parallelism" is 4 and the desired one is 8.
sdk_find_hides_options_example :
    custom_pre_compare comparators
      (prod none).spec
      (observe pointers manager (prod none) (described "AVAILABLE" none)).spec
    ≡ []
sdk_find_hides_options_example =
    sdk_find_hides_options faults sample_conditions pointers manager sample_client comparators
      comparators-IsLawful (prod none)
      (observe pointers manager (prod none) (described "AVAILABLE" none))
      (cloud_of (ok (some (described "AVAILABLE" none)))) none (("core.parallelism", some "8") ∷ [])
      refl (refl, tt) found
