-- ===== src/Env/Read.antt =====
-- `sdkFind` of pkg/resource/environment/sdk.go, with the hook that
-- templates/hooks/environment/sdk_read_one_post_set_output.go.tpl puts into it.
mod Output
pub mod Answers
pub mod Options
pub mod Observed
mod Tests
unfoldable pub use Output.*
use mwaa_controller.Common.{String, ◌<>◌, Bool, ◌||◌, Option, none, some, ◌==◌}
use mwaa_controller.Common.{
  string_eq, if◌then◌else◌, Outcome, returns, panics, Result, ok, err, is_none,
}
use mwaa_controller.Api.{Environment}
use mwaa_controller.Ext.Errors.{Errors}
use mwaa_controller.Ext.Sdk.{Client, SdkEnvironment}
use mwaa_controller.Ext.Runtime.{Conditions, Pointers}
use mwaa_controller.Env.Calls.{Cloud, call}
use mwaa_controller.Env.Status.{Manager, Answer, set_status_defaults}
use mwaa_controller.Env.Hooks.{handle_update_failed}

-- `requiredFieldsMissingFromReadOneInput`
abbrev pub required_fields_missing : Environment → Bool
required_fields_missing r = is_none r.spec.name

-- `newDescribeRequestPayload`: the input's only field.
abbrev pub describe_payload : Environment → Option String
describe_payload r = r.spec.name

-- `CREATE_FAILED` and `UNAVAILABLE`
unfoldable pub is_failure_state : String → Bool
is_failure_state status = status == "CREATE_FAILED" || status == "UNAVAILABLE"

-- The desired options are copied onto the observed resource.
abbrev pub keep_options : Environment → Environment → Environment
keep_options r ko = elim r.spec.airflow_configuration_options [
  | none ↦ ko
  | some options ↦ record ko {
    spec = record (ko.spec) { airflow_configuration_options = some options };
  }
]

-- The observed resource, before the tests.
unfoldable pub observe : Pointers → Manager → Environment → SdkEnvironment → Environment
observe P rm r env = keep_options r (set_status_defaults rm (set_output P env r))

module _ (E : Errors) (K : Conditions) where
  abbrev pub or_observed : Environment → Answer E → Answer E
  or_observed ko (res, none) = (some ko, none)
  or_observed ko (res, some e) = (res, some e)

  -- The tests on the observed resource.
  abbrev pub check_state : Environment → Option String → Answer E
  check_state ko none = or_observed ko (handle_update_failed E K ko)
  check_state ko (some status) =
      if is_failure_state status
      then (
        some ko,
        some (E.new_terminal_error (E.errorf ("environment is in terminal state: " <> status))),
      )
      else or_observed ko (handle_update_failed E K ko)

  -- The error of GetEnvironment.
  unfoldable pub read_error : E.Error → E.Error
  read_error e = elim (E.as_api_error e) [
    | none ↦ e
    | some aws_err ↦ if aws_err.code == "ResourceNotFoundException" then E.not_found else e
  ]

  module _ (P : Pointers) where
    -- From the answer of GetEnvironment on.
    abbrev pub find_answer :
        Manager → Environment → Result E.Error (Option SdkEnvironment) → Outcome (Answer E)
    find_answer rm r (err e) = returns (none, some (read_error e))
    find_answer rm r (ok none) = panics "nil pointer dereference"
    find_answer rm r (ok (some env)) =
        let ko = observe P rm r env in returns (check_state ko ko.status.status)

    -- `sdkFind`
    unfoldable pub sdk_find :
        (C : Client E) → Manager → Environment → Cloud E C → Outcome (Answer E) × Cloud E C
    sdk_find C rm r cloud =
        if required_fields_missing r
        then (returns (none, some E.not_found), cloud)
        else (let (resp, cloud') =
              call E C "READ_ONE" "GetEnvironment" (C.get_environment (describe_payload r)) cloud in
            (find_answer rm r resp, cloud'))
