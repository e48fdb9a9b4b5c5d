-- ===== src/Env/Manage/Uniqueness.antt =====
-- `ReadOne` keeps that there is at most one condition of each type.
use mwaa_controller.Common.{
  ◌<>◌, sym, String, Bool, true, false, not, if◌then◌else◌, Option, none, some, List, Result, ok,
  err,
}
use mathlib.Core.Path.{subst}
use mwaa_controller.Common.{Bool-cases, inl, inr, ◌==◌, string_eq}
use mwaa_controller.Api.{Environment, Condition, ConditionStatus, LastUpdate}
use mwaa_controller.Ext.Errors.{Errors}
use mwaa_controller.Ext.Sdk.{Client, SdkEnvironment}
use mwaa_controller.Ext.Runtime.{Conditions, Pointers}
use mwaa_controller.Env.Calls.{Cloud}
use mwaa_controller.Env.Status.{Manager, Answer}
use mwaa_controller.Env.Status.Reports.{conditions_of, UniqueKinds}
use mwaa_controller.Env.Status.Holds.{
  Holds, Answered, Holds-bind, on_success-Unique, on_error-Unique,
}
use mwaa_controller.Env.Hooks.{
  handle_update_failed, check_last_update, unless_failed, report_update_failed,
}
use mwaa_controller.Env.TagFields.{mirror_aws_tags}
use mwaa_controller.Env.Read.{
  sdk_find, find_answer, check_state, or_observed, observe, is_failure_state,
  required_fields_missing,
}
use mwaa_controller.Env.Read.Observed.{observe-conditions}
use mwaa_controller.Env.Manage.{read_one, report}

-- `SetSynced` and `SetLateInitialized` change the condition of their type if there is one, and add
-- it if there is none, so they leave at most one condition of each type.
pub record KeepsKinds (K : Conditions) : Type 0 where
  pub set_synced :
      (cs : List Condition) (status : ConditionStatus) (message reason : Option String)
      → UniqueKinds cs
      → UniqueKinds (K.set_synced cs status message reason)
  pub set_late_initialized :
      (cs : List Condition) (status : ConditionStatus) (message reason : Option String)
      → UniqueKinds cs
      → UniqueKinds (K.set_late_initialized cs status message reason)

-- The answer of `ReadOne`, and its argument after the call.
abbrev pub Read : {X : Type 0} → (Option Environment × X) × Environment → Type 0
Read a = Answered a.0 × UniqueKinds (conditions_of a.1)

module _ (E : Errors) (rm : Manager) where
  pub report-Unique :
      (r : Environment) (a : Answer E)
      → UniqueKinds (conditions_of r)
      → Answered a
      → Holds Answered (report E rm r a)
  unfolding report
  report-Unique r (res, none) u v = on_success-Unique E rm res v
  report-Unique r (some res, some e) u v = on_error-Unique E rm (some res) e v
  report-Unique r (none, some e) u v = on_error-Unique E rm (some r) e u

module _ (E : Errors) (K : Conditions) (P : Pointers) (C : Client E) (rm : Manager) where
  mirror_aws_tags-UniqueKinds :
      (r : Environment) (o : Option Environment)
      → UniqueKinds (conditions_of r)
      → UniqueKinds (conditions_of (mirror_aws_tags r o))
  unfolding mirror_aws_tags
  mirror_aws_tags-UniqueKinds r none u = u
  mirror_aws_tags-UniqueKinds r (some o) u = u

  module _ (L : KeepsKinds K) where
    unless_failed-Unique :
        (ko : Environment) (last_update : LastUpdate) (status : Option String)
        → UniqueKinds (conditions_of ko)
        → Answered (unless_failed E K ko last_update status)
    unless_failed-Unique ko last_update none u = tt
    unless_failed-Unique ko last_update (some status) u = chosen (not (status == "FAILED"))
      where
        chosen :
            (b : Bool)
            → Answered (if b then (none, none) else report_update_failed E K ko last_update)
        chosen true = tt
        chosen false = L.set_synced (conditions_of ko) _ _ _ u

    handle_update_failed-Unique :
        (ko : Environment) → UniqueKinds (conditions_of ko) → Answered (handle_update_failed E K ko)
    unfolding handle_update_failed
    handle_update_failed-Unique ko u = looked ko.status.last_update
      where
        looked : (o : Option LastUpdate) → Answered (check_last_update E K ko o)
        looked none = tt
        looked (some last_update) = unless_failed-Unique ko last_update last_update.status u

    or_observed-Unique :
        (ko : Environment) (a : Answer E)
        → UniqueKinds (conditions_of ko)
        → Answered a
        → Answered (or_observed E K ko a)
    or_observed-Unique ko (res, none) u v = u
    or_observed-Unique ko (res, some e) u v = v

    check_state-Unique :
        (ko : Environment) (status : Option String)
        → UniqueKinds (conditions_of ko)
        → Answered (check_state E K ko status)
    check_state-Unique ko none u =
        or_observed-Unique ko (handle_update_failed E K ko) u (handle_update_failed-Unique ko u)
    check_state-Unique ko (some status) u = chosen (is_failure_state status)
      where
        chosen :
            (b : Bool)
            → Answered (
                if b
                then (
                  some ko,
                  some (
                      E.new_terminal_error
                        (E.errorf ("environment is in terminal state: " <> status))),
                )
                else or_observed E K ko (handle_update_failed E K ko))
        chosen true = u
        chosen false =
            or_observed-Unique ko (handle_update_failed E K ko) u (handle_update_failed-Unique ko u)

    find_answer-Unique :
        (r : Environment) (resp : Result E.Error (Option SdkEnvironment))
        → UniqueKinds (conditions_of r)
        → Holds Answered (find_answer E K P rm r resp)
    find_answer-Unique r (err e) u = tt
    find_answer-Unique r (ok none) u = tt
    find_answer-Unique r (ok (some env)) u =
        let ko = observe P rm r env in
        check_state-Unique ko ko.status.status
          (subst UniqueKinds (sym (observe-conditions P rm r env)) u)

    sdk_find-Unique :
        (r : Environment) (cloud : Cloud E C)
        → UniqueKinds (conditions_of r)
        → Holds Answered (sdk_find E K P C rm r cloud).0
    unfolding sdk_find
    sdk_find-Unique r cloud u = elim (Bool-cases (required_fields_missing r)) [
      | inl missing ↦ rw missing tt
      | inr named ↦ rw named (find_answer-Unique r (C.get_environment r.spec.name cloud.world).0 u)
    ]

    pub read_one-Unique :
        (r : Environment) (cloud : Cloud E C)
        → UniqueKinds (conditions_of r)
        → Holds Read (read_one E rm K P C (some r) cloud).0
    unfolding read_one
    read_one-Unique r cloud u =
        Holds-bind Answered Read (sdk_find E K P C rm r cloud).0 _ (sdk_find-Unique r cloud u)
          λ answer v.
            let r' = mirror_aws_tags r answer.0 in
            let w : UniqueKinds (conditions_of r') = mirror_aws_tags-UniqueKinds r answer.0 u in
            Holds-bind Answered Read (report E rm r' answer) _ (report-Unique E rm r' answer w v)
              λ reported x. (x, w)
