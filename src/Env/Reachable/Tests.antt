-- ===== src/Env/Reachable/Tests.antt =====
-- A resource that is applied, created and read.
use mwaa_controller.Common.{◌≡◌, refl, none, some, [], returns, ok, string_eq}
use mwaa_controller.Api.{Environment}
use mwaa_controller.Env.Status.Reports.{conditions_of, UniqueKinds}
use mwaa_controller.Env.Status.{
  with_conditions, set_status_defaults, raise, lower, on_error, on_success, update_conditions,
  conditions_after, is_terminal_error, terminal_aws_error, terminal_by_text, recoverable_message,
}
use mwaa_controller.Env.Read.{sdk_find, read_error}
use mwaa_controller.Env.TagFields.{mirror_aws_tags}
use mwaa_controller.Env.Write.{sdk_create, with_arn}
use mwaa_controller.Common.{err}
use mwaa_controller.Api.{is_recoverable, is_terminal, recoverable}
use mwaa_controller.Env.Payload.Bounds.{create_payload_iff, create_input_of}
use mwaa_controller.Env.Manage.{create, read_one, report}
use mwaa_controller.Env.Reachable.{Reachable-UniqueKinds, applied, created, read}
use mwaa_controller.Samples.Faults.{faults, gone}
use mwaa_controller.Samples.Maps.{pointers}
use mwaa_controller.Samples.Cloud.{sample_client, cloud_of, sample_conditions, sample_deltas}
use mwaa_controller.Samples.Kinds.{sample_conditions-KeepsKinds}
use mwaa_controller.Samples.Resources.{manager, prod, prod_spec, prod-InRange}

-- The environment without conditions.
abbrev bare : Environment
bare = with_conditions (prod none) []

-- After a read that found nothing.
abbrev missed : Environment
missed =
    with_conditions (set_status_defaults manager bare)
      (raise is_recoverable recoverable (faults.text faults.not_found) [])

bare_read :
    (read_one faults manager sample_conditions pointers sample_client
      (some bare)
      (cloud_of (err gone))).0
    ≡ returns ((some missed, some faults.not_found), bare)
unfolding read_one report on_error update_conditions conditions_after is_terminal_error
    terminal_aws_error terminal_by_text recoverable_message sdk_find read_error raise
    set_status_defaults string_eq mirror_aws_tags lower
bare_read = refl

-- After the creation of it.
abbrev made : Environment
made =
    with_conditions
      (set_status_defaults manager
        (with_arn (some "arn:aws:mwaa:us-west-2:1:environment/prod") missed))
      (lower is_recoverable (lower is_terminal (conditions_of missed)))

missed_created :
    (create faults manager sample_conditions pointers sample_client
      (some missed)
      (cloud_of (ok none))).0
    ≡ returns (some made, none)
unfolding create sdk_create report on_success update_conditions conditions_after set_status_defaults
    raise lower string_eq
missed_created =
    rw
      ((create_payload_iff faults pointers prod_spec (create_input_of pointers prod_spec)).1
        (prod-InRange, refl))
      refl

Reachable-UniqueKinds_example : UniqueKinds (conditions_of made)
Reachable-UniqueKinds_example =
    Reachable-UniqueKinds faults sample_conditions pointers sample_client manager sample_deltas
      sample_conditions-KeepsKinds made
      (created missed made none (cloud_of (ok none))
        (read bare missed bare (some faults.not_found) (cloud_of (err gone)) (applied bare refl)
          bare_read)
        missed_created)
