-- ===== src/Env/Read/Options.antt =====
-- What `sdkFind` does to the Airflow configuration options.
use mwaa_controller.Common.{String, ◌≡◌, sym, ◌∙◌, ap, Option, none, some, []}
use mwaa_controller.Common.{arith, returns, Result, ok, err, inl, inr}
use mwaa_controller.Common.{Bool-cases, Option-cases}
use mwaa_controller.Common.Dict.{Dict, NodupKeys}
use mwaa_controller.Api.{Environment}
use mwaa_controller.Ext.Errors.{Errors}
use mwaa_controller.Ext.Sdk.{Client, SdkEnvironment}
use mwaa_controller.Ext.Runtime.{Conditions, Pointers}
use mwaa_controller.Ext.Compare.{Compare, CompareIsLawful}
use mwaa_controller.Env.Calls.{Cloud}
use mwaa_controller.Env.Status.{Manager}
use mwaa_controller.Env.Hooks.{handle_update_failed}
use mwaa_controller.Env.Delta.{custom_pre_compare}
use mwaa_controller.Env.Delta.Parts.{custom_pre_compare-eq-nil}
use mwaa_controller.Env.Read.{sdk_find, find_answer, check_state, observe, is_failure_state}
use mwaa_controller.Env.Read.{or_observed}
use mwaa_controller.Env.Read.Answers.{sdk_find-named}

module _ (E : Errors) (K : Conditions) where
  -- `handleUpdateFailed` changes the conditions only.
  handle_update_failed-spec :
      (ko latest : Environment) (e : Option E.Error)
      → or_observed E K ko (handle_update_failed E K ko) ≡ (some latest, e)
      → latest.spec ≡ ko.spec
  unfolding handle_update_failed
  handle_update_failed-spec ko latest e h = ground arith

  check_state-spec :
      (ko latest : Environment) (s : Option String) (e : Option E.Error)
      → check_state E K ko s ≡ (some latest, e)
      → latest.spec ≡ ko.spec
  check_state-spec ko latest none e h = handle_update_failed-spec ko latest e h
  check_state-spec ko latest (some s) e h = elim (Bool-cases (is_failure_state s)) [
    | inl failed ↦ ground arith
    | inr other ↦ handle_update_failed-spec ko latest e (rw other at h)
  ]

  module _ (P : Pointers) (rm : Manager) where
    observe-options :
        (r : Environment) (env : SdkEnvironment) (o : Dict (Option String))
        → r.spec.airflow_configuration_options ≡ some o
        → (observe P rm r env).spec.airflow_configuration_options ≡ some o
    unfolding observe
    observe-options r env o h = rw h

    find_answer-options :
        (r latest : Environment) (resp : Result E.Error (Option SdkEnvironment))
        (e : Option E.Error) (o : Dict (Option String))
        → find_answer E K P rm r resp ≡ returns (some latest, e)
        → r.spec.airflow_configuration_options ≡ some o
        → latest.spec.airflow_configuration_options ≡ some o
    find_answer-options r latest (err x) e o h d = cc
    find_answer-options r latest (ok none) e o h d = cc
    find_answer-options r latest (ok (some env)) e o h d =
        let ko = observe P rm r env in
        let same : check_state E K ko ko.status.status ≡ (some latest, e) = cc in
        rw (check_state-spec ko latest ko.status.status e same) (observe-options r env o d)

    -- If a resource sets options, a map, and `sdkFind` returns a resource for it, then no
    -- comparison of the two specs adds a difference at Spec.AirflowConfigurationOptions, whatever
    -- options the service has, where the comparators do as documented.
    pub sdk_find_hides_options :
        (C : Client E) (Q : Compare)
        → CompareIsLawful Q
        → (r latest : Environment) (cloud : Cloud E C) (e : Option E.Error)
          (o : Dict (Option String))
        → r.spec.airflow_configuration_options ≡ some o
        → NodupKeys o
        → (sdk_find E K P C rm r cloud).0 ≡ returns (some latest, e)
        → custom_pre_compare Q r.spec latest.spec ≡ []
    unfolding sdk_find
    sdk_find_hides_options C Q L r latest cloud e o d u h =
        let observed : latest.spec.airflow_configuration_options ≡ some o =
          elim (Option-cases r.spec.name) [
            | inl missing ↦ cc (rw missing at h)
            | inr (n, named) ↦
                find_answer-options r latest (C.get_environment (some n) cloud.world).0 e o
                  (sym (ap (λ x. x.0) (sdk_find-named E K P C rm r cloud named)) ∙ h) d
          ] in
        (custom_pre_compare-eq-nil Q L r.spec latest.spec (rw d u) (rw observed u)).1
          (λ k. rw (d, observed))
