-- ===== src/Env/LateInit/Tests.antt =====
-- The results on late initialization, on the sample environment.
use mwaa_controller.Common.{◌≡◌, refl, string_eq, none, some, returns, ok, elements}
use mwaa_controller.Api.{Environment, is_terminal, is_recoverable}
use mwaa_controller.Env.Status.{
  set_status_defaults, with_conditions, lower, on_success, update_conditions, conditions_after,
}
use mwaa_controller.Env.TagFields.{mirror_aws_tags}
use mwaa_controller.Env.Hooks.{handle_update_failed}
use mwaa_controller.Env.Read.{
  observe, set_output, read_status, enum_ptr, is_failure_state, sdk_find,
}
use mwaa_controller.Env.Manage.{read_one, report}
use mwaa_controller.Env.LateInit.{late_initialize}
use mwaa_controller.Env.LateInit.Fields.{late_initialize_read, Filled, Ends}
use mwaa_controller.Env.Status.Reports.{conditions_of}
use mwaa_controller.Common.{Option}
use mwaa_controller.Samples.Faults.{Fault, faults}
use mwaa_controller.Samples.Maps.{pointers}
use mwaa_controller.Samples.Cloud.{sample_client, cloud_of, sample_conditions}
use mwaa_controller.Samples.Resources.{manager, prod, described}

abbrev observed_prod : Environment
observed_prod =
    let ko = observe pointers manager (prod none) (described "AVAILABLE" none) in
    with_conditions (set_status_defaults manager ko)
      (lower is_recoverable (lower is_terminal (elements ko.status.conditions)))

abbrev copy_of_prod : Environment
copy_of_prod =
    mirror_aws_tags (prod none)
      (some (observe pointers manager (prod none) (described "AVAILABLE" none)))

read_prod :
    (read_one faults manager sample_conditions pointers sample_client
      (some (prod none))
      (cloud_of (ok (some (described "AVAILABLE" none))))).0
    ≡ returns ((some observed_prod, none), copy_of_prod)
unfolding read_one report on_success update_conditions conditions_after sdk_find is_failure_state
    handle_update_failed observe set_output read_status enum_ptr set_status_defaults lower string_eq
read_prod = refl

late_initialize_read_example :
    (r : Environment) × (e : Option Fault) × ((late_initialize faults sample_conditions manager
        pointers sample_client
        (prod none)
        (cloud_of (ok (some (described "AVAILABLE" none))))).0
      ≡ returns (r, e))
    × Filled observed_prod.spec copy_of_prod.spec r.spec
    × (r.meta ≡ copy_of_prod.meta)
    × (r.status ≡ (with_conditions copy_of_prod (conditions_of r)).status)
    × Ends faults r.spec e
late_initialize_read_example =
    late_initialize_read faults sample_conditions manager pointers sample_client (prod none)
      observed_prod copy_of_prod (cloud_of (ok (some (described "AVAILABLE" none)))) read_prod
