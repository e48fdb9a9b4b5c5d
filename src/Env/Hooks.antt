-- ===== src/Env/Hooks.antt =====
-- `handleUpdateFailed` of pkg/resource/environment/hooks.go.
use mwaa_controller.Common.{String, ◌<>◌, Option, none, some, elements, ◌==◌, string_eq, not}
use mwaa_controller.Common.{if◌then◌else◌}
use mwaa_controller.Api.{Environment, LastUpdate, UpdateError, status_false}
use mwaa_controller.Ext.Errors.{Errors}
use mwaa_controller.Ext.Runtime.{Conditions}
use mwaa_controller.Env.Status.{Answer, with_conditions}

abbrev or_text : Option String → String → String
or_text none s = s
or_text (some t) s = t

-- `code` and `msg`, with their fallbacks
unfoldable pub error_code : Option UpdateError → String
error_code none = "Unknown"
error_code (some e) = or_text e.error_code "Unknown"

unfoldable pub error_message : Option UpdateError → String
error_message none = "update failed with no error details"
error_message (some e) = or_text e.error_message "update failed with no error details"

-- `errMsg`
unfoldable pub update_failed_message : LastUpdate → String
unfolding error_code error_message
update_failed_message last_update =
    "last UpdateEnvironment failed: "
    <> (error_code last_update.error
        <> (": " <> (error_message last_update.error <> "; patch the spec to retry")))

module _ (E : Errors) (K : Conditions) where
  -- The part below the early return.
  abbrev pub report_update_failed : Environment → LastUpdate → Answer E
  report_update_failed ko last_update =
      let err_msg = update_failed_message last_update in
      (
        some (
            with_conditions ko
              (K.set_synced (elements ko.status.conditions) status_false (some err_msg) none)),
        some (E.needed_after (some (E.errorf err_msg)) E.default_requeue_after),
      )

  abbrev pub unless_failed : Environment → LastUpdate → Option String → Answer E
  unless_failed ko last_update none = (none, none)
  unless_failed ko last_update (some status) =
      if not (status == "FAILED") then (none, none) else report_update_failed ko last_update

  abbrev pub check_last_update : Environment → Option LastUpdate → Answer E
  check_last_update ko none = (none, none)
  check_last_update ko (some last_update) = unless_failed ko last_update last_update.status

  -- `handleUpdateFailed`; it changes the resource that it returns.
  unfoldable pub handle_update_failed : Environment → Answer E
  handle_update_failed ko = check_last_update ko ko.status.last_update
