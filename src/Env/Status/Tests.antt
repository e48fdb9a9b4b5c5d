-- ===== src/Env/Status/Tests.antt =====
-- The results on `onError` and `onSuccess`, on the sample environment.
use mwaa_controller.Common.{String, ◌≡◌, refl, string_eq, true, false, none, some, returns, List}
use mwaa_controller.Api.{Environment, is_terminal, is_recoverable, Condition, terminal}
use mwaa_controller.Env.Status.{raise, on_error, terminal_message, recoverable_message, is_raised}
use mwaa_controller.Env.Status.{
  is_terminal_error, terminal_aws_error, terminal_by_text, conditions_after,
}
use mwaa_controller.Env.Status.Changes.{Raised}
use mwaa_controller.Env.Status.Reports.{conditions_of, on_error_terminal, on_error_recoverable}
use mwaa_controller.Samples.Faults.{Fault, api, faults, faults-IsLawful}
use mwaa_controller.Samples.Resources.{manager, prod, old_conditions, prod-UniqueKinds}

abbrev invalid : Fault
invalid = api (record { code = "ValidationException"; text = "bad class" })

abbrev throttled : Fault
throttled = api (record { code = "ThrottlingException"; text = "slow down" })

invalid_is_terminal : is_terminal_error faults invalid ≡ true
unfolding is_terminal_error terminal_aws_error terminal_by_text string_eq
invalid_is_terminal = refl

throttled_is_recoverable : is_terminal_error faults throttled ≡ false
unfolding is_terminal_error terminal_aws_error terminal_by_text string_eq
throttled_is_recoverable = refl

on_error_terminal_example :
    (r1 : Environment) × (m : String) × (on_error faults manager (some (prod none)) invalid
      ≡ returns (some r1, some faults.terminal))
    × (terminal_message faults invalid ≡ returns m)
    × Raised is_terminal m (conditions_of r1)
on_error_terminal_example =
    on_error_terminal faults faults-IsLawful manager (prod none) invalid invalid_is_terminal

on_error_recoverable_example :
    (r1 : Environment) × (on_error faults manager (some (prod none)) throttled
      ≡ returns (some r1, some throttled))
    × Raised is_recoverable (recoverable_message faults throttled) (conditions_of r1)
    × (is_raised is_terminal (conditions_of r1) ≡ false)
on_error_recoverable_example =
    on_error_recoverable faults faults-IsLawful manager (prod none) throttled
      throttled_is_recoverable prod-UniqueKinds.one_terminal

abbrev after_invalid : List Condition
after_invalid = raise is_terminal terminal "bad class" old_conditions

conditions_after-invalid :
    conditions_after faults (some invalid) old_conditions ≡ returns after_invalid
unfolding conditions_after is_terminal_error terminal_aws_error terminal_by_text terminal_message
    string_eq
conditions_after-invalid = refl
