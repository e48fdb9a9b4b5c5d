-- ===== src/Env/Manage/Reads.antt =====
-- What `ReadOne` of manager.go reports of an environment that the service describes, by its state
-- and by the end of its last update.
use mathlib.Core.Option
use mwaa_controller.Common.{String, ◌≡◌, ◌≢◌, refl, sym, ap, ◌∙◌, ◌<>◌, true, false, none, some}
use mwaa_controller.Common.{arith, returns, ok, inl, inr, Bool-cases, Option-cases}
use mwaa_controller.Common.{◌==◌, string_eq, ==_ne}
use mwaa_controller.Api.{Environment, is_terminal, is_recoverable, status_false, LastUpdate}
use mwaa_controller.Ext.Errors.{Errors, IsLawful}
use mwaa_controller.Ext.Sdk.{Client, SdkEnvironment, SdkLastUpdate}
use mwaa_controller.Ext.Runtime.{Conditions, Pointers}
use mwaa_controller.Env.Calls.{Cloud}
use mwaa_controller.Env.Status.{Manager, with_conditions, set_status_defaults, is_raised}
use mwaa_controller.Env.Status.{is_terminal_error, terminal_by_text, terminal_aws_error}
use mwaa_controller.Env.Status.{terminal_message, recoverable_message}
use mwaa_controller.Env.Status.Changes.{AtMostOne, Raised}
use mwaa_controller.Env.Status.Reports.{conditions_of, on_error_terminal, on_error_recoverable}
use mwaa_controller.Env.Status.Reports.{on_success_clears, UniqueKinds}
use mwaa_controller.Env.Status.Same.{Kept, on_error-Kept, on_success-Kept, Kept-of_conditions}
use mwaa_controller.Env.Status.Synced.{Synced, SetsSynced, on_error-Synced}
use mwaa_controller.Env.TagFields.{mirror_aws_tags}
use mwaa_controller.Env.Hooks.{handle_update_failed, update_failed_message}
use mwaa_controller.Env.Read.{find_answer, check_state, observe, is_failure_state, set_output}
use mwaa_controller.Env.Read.{read_last_update, enum_ptr, read_status, or_observed}
use mwaa_controller.Env.Read.Answers.{sdk_find-named}
use mwaa_controller.Env.Read.Observed.{observe-conditions}
use mwaa_controller.Env.Manage.{read_one, finish_read, report}

-- The error of an update that ended with FAILED: the reconciler tries again later.
abbrev pub update_failed_error : (E : Errors) → String → E.Error
update_failed_error E message = E.needed_after (some (E.errorf message)) E.default_requeue_after

-- No update is on record, or the last one did not fail.
abbrev pub NotFailed : SdkEnvironment → Type 0
NotFailed env = Option.map (λ u. u.status) env.last_update ≢ some "FAILED"

created_differs : ◌≢◌ {A = String} "" "CREATE_FAILED"
unfolding string_eq
created_differs = ==_ne "" "CREATE_FAILED" refl

unavailable_differs : ◌≢◌ {A = String} "" "UNAVAILABLE"
unfolding string_eq
unavailable_differs = ==_ne "" "UNAVAILABLE" refl

module _ (E : Errors) (K : Conditions) (P : Pointers) (C : Client E) (rm : Manager) where
  module _ (r : Environment) (cloud : Cloud E C) (n : String) (env : SdkEnvironment) where
    -- The observed resource carries the state of the answer, and the argument's conditions.
    pub observe-status : (observe P rm r env).status.status ≡ enum_ptr env.status
    unfolding observe set_output read_status set_status_defaults
    observe-status = elim (Option-cases r.spec.airflow_configuration_options) [
      | inl without ↦ rw without
      | inr (o, with_options) ↦ rw with_options
    ]

    observe-last_update :
        (observe P rm r env).status.last_update ≡ Option.map read_last_update env.last_update
    unfolding observe set_output read_status set_status_defaults
    observe-last_update = elim (Option-cases r.spec.airflow_configuration_options) [
      | inl without ↦ rw without
      | inr (o, with_options) ↦ rw with_options
    ]

    -- The answer of `sdkFind` decides.
    pub read_one-named :
        r.spec.name ≡ some n
        → (C.get_environment (some n) cloud.world).0 ≡ ok (some env)
        → (read_one E rm K P C (some r) cloud).0
          ≡ finish_read E rm K P C r
              (returns (check_state E K (observe P rm r env) (observe P rm r env).status.status))
    unfolding read_one
    read_one-named named described = ap (finish_read E rm K P C r) (
        ap (λ x. x.0) (sdk_find-named E K P C rm r cloud named)
        ∙ ap (find_answer E K P rm r) described)

    enum_ptr-of_failure : is_failure_state env.status ≡ true → enum_ptr env.status ≡ some env.status
    unfolding enum_ptr is_failure_state
    enum_ptr-of_failure h = ground (arith, created_differs, unavailable_differs)

    -- The error of an environment that failed.
    abbrev pub failure_error : E.Error
    failure_error =
        E.new_terminal_error (E.errorf ("environment is in terminal state: " <> env.status))

    check_state-failed :
        is_failure_state env.status ≡ true
        → check_state E K (observe P rm r env) (observe P rm r env).status.status
          ≡ (some (observe P rm r env), some failure_error)
    check_state-failed h = rw (observe-status, enum_ptr-of_failure h, h) refl

    module _ (L : IsLawful E) where
      failure_is_terminal :
          (is_terminal_error E failure_error ≡ true)
          × (terminal_message E failure_error ≡ returns (E.text failure_error))
      unfolding is_terminal_error terminal_by_text terminal_message
      failure_is_terminal =
          let t =
            L.terminal_error (E.errorf ("environment is in terminal state: " <> env.status)) in
          (ground (arith, t), ground (arith, t))

      -- Of a resource with a name, if the service describes the environment as CREATE_FAILED or
      -- UNAVAILABLE, `ReadOne` returns `ackerr.Terminal` and the observed resource, the same but
      -- for its conditions and the account and region in its metadata; its Terminal condition is
      -- True with the text of the error. Errors behave as documented.
      pub read_one_failed :
          r.spec.name ≡ some n
          → (C.get_environment (some n) cloud.world).0 ≡ ok (some env)
          → is_failure_state env.status ≡ true
          → (r1 : Environment) × ((read_one E rm K P C (some r) cloud).0
              ≡ returns ((some r1, some E.terminal), mirror_aws_tags r (some (observe P rm r env))))
            × Kept (observe P rm r env) r1
            × Raised is_terminal (E.text failure_error) (conditions_of r1)
      unfolding report
      read_one_failed named described failed =
          let ko = observe P rm r env in
          let (terminal_error, text) = failure_is_terminal in
          let (r1, m, reported, message, raised) =
            on_error_terminal E L rm ko failure_error terminal_error in
          let same : returns m ≡ returns (E.text failure_error) = sym message ∙ text in
          let m_eq : m ≡ E.text failure_error = cc in
          (
            r1,
            read_one-named named described ∙ rw (check_state-failed failed, reported) refl,
            on_error-Kept E rm ko r1 failure_error _ reported,
            rw m_eq at raised,
          )

    pub check_state-other :
        is_failure_state env.status ≡ false
        → check_state E K (observe P rm r env) (observe P rm r env).status.status
          ≡ or_observed E K (observe P rm r env) (handle_update_failed E K (observe P rm r env))
    unfolding enum_ptr
    check_state-other h = elim (Bool-cases (env.status == "")) [
      | inl unset ↦ rw observe-status (rw unset refl)
      | inr set ↦ rw observe-status (rw (set, h) refl)
    ]

    -- Nothing is marked where no update failed.
    pub handle_update_failed-other :
        NotFailed env → handle_update_failed E K (observe P rm r env) ≡ (none, none)
    unfolding handle_update_failed read_last_update enum_ptr
    handle_update_failed-other other = elim (Option-cases env.last_update) [
      | inl never ↦ rw (observe-last_update, never) refl
      | inr (u, h) ↦
          let status : u.status ≢ "FAILED" =
            λ failed. other (ap (Option.map (λ u. u.status)) h ∙ ap some failed) in
          rw (observe-last_update, h) (ground (arith, status))
    ]

    -- The observed resource of a failed update.
    abbrev pub marked : LastUpdate → Environment
    marked u =
        let ko = observe P rm r env in
        with_conditions ko
          (K.set_synced (conditions_of ko) status_false (some (update_failed_message u)) none)

    handle_update_failed-marked :
        (u : LastUpdate)
        → (observe P rm r env).status.last_update ≡ some u
        → u.status ≡ some "FAILED"
        → handle_update_failed E K (observe P rm r env)
          ≡ (some (marked u), some (update_failed_error E (update_failed_message u)))
    unfolding handle_update_failed string_eq
    handle_update_failed-marked u h failed = rw h (rw failed refl)

    last_update-failed :
        (u : SdkLastUpdate)
        → env.last_update ≡ some u
        → u.status ≡ "FAILED"
        → ((observe P rm r env).status.last_update ≡ some (read_last_update u))
          × ((read_last_update u).status ≡ some "FAILED")
    unfolding read_last_update enum_ptr string_eq
    last_update-failed u h failed =
        (observe-last_update ∙ ap (Option.map read_last_update) h, rw failed refl)

    module _ (L : IsLawful E) where
      update_failed-is_recoverable :
          (m : String) → is_terminal_error E (update_failed_error E m) ≡ false
      unfolding is_terminal_error terminal_aws_error terminal_by_text
      update_failed-is_recoverable m = ground (
        arith,
        L.needed_after_api (E.errorf m) E.default_requeue_after,
        L.errorf_api m,
        L.needed_after_terminal (E.errorf m) E.default_requeue_after,
        L.errorf_terminal m,
        L.needed_after_secret_type (E.errorf m) E.default_requeue_after,
        L.needed_after_secret (E.errorf m) E.default_requeue_after,
      )

      -- Of a resource with a name, if the last update of an environment that is not CREATE_FAILED
      -- or UNAVAILABLE is FAILED, `ReadOne` returns the error that asks for another try and the
      -- observed resource, the same but for its conditions and the account and region in its
      -- metadata: its ResourceSynced condition is False with the message on the failed update, the
      -- Recoverable condition is True with the text of the error, the Terminal one is not True.
      -- Errors and `SetSynced` behave as documented, and the observed resource with its
      -- ResourceSynced condition set has at most one Terminal condition.
      pub read_one_update_failed :
          SetsSynced K
          → (u : SdkLastUpdate) → r.spec.name ≡ some n
          → (C.get_environment (some n) cloud.world).0 ≡ ok (some env)
          → is_failure_state env.status ≡ false
          → env.last_update ≡ some u
          → u.status ≡ "FAILED"
          → AtMostOne is_terminal (conditions_of (marked (read_last_update u)))
          → let e = update_failed_error E (update_failed_message (read_last_update u)) in
            (r1 : Environment) × ((read_one E rm K P C (some r) cloud).0
              ≡ returns ((some r1, some e), mirror_aws_tags r (some (marked (read_last_update u)))))
            × Kept (observe P rm r env) r1
            × Synced status_false
                (some (update_failed_message (read_last_update u)))
                (conditions_of r1)
            × Raised is_recoverable (recoverable_message E e) (conditions_of r1)
            × (is_raised is_terminal (conditions_of r1) ≡ false)
      unfolding report
      read_one_update_failed S u named described healthy h failed one =
          let v = read_last_update u in
          let (at, status) = last_update-failed u h failed in
          let e = update_failed_error E (update_failed_message v) in
          let found =
            check_state-other healthy
            ∙ ap (or_observed E K (observe P rm r env)) (handle_update_failed-marked v at status) in
          let mild = update_failed-is_recoverable (update_failed_message v) in
          let (r1, reported, raised, calm) = on_error_recoverable E L rm (marked v) e mild one in
          (
            r1,
            read_one-named named described ∙ rw (found, reported) refl,
            Kept-of_conditions _ r1 _ (on_error-Kept E rm (marked v) r1 e _ reported),
            on_error-Synced E rm (marked v) r1 e _ _ _ mild (S.set_synced-Synced _ _ _ _) reported,
            raised,
            calm,
          )

      -- Of a resource with a name and at most one condition of each type, if the environment is in
      -- no failure state and its last update is not FAILED, `ReadOne` returns no error and the
      -- observed resource, the same but for its conditions and the account and region in its
      -- metadata, and neither its Terminal nor its Recoverable condition is True.
      pub read_one_healthy :
          r.spec.name ≡ some n
          → (C.get_environment (some n) cloud.world).0 ≡ ok (some env)
          → is_failure_state env.status ≡ false
          → NotFailed env
          → UniqueKinds (conditions_of r)
          → (r1 : Environment) × ((read_one E rm K P C (some r) cloud).0
              ≡ returns ((some r1, none), mirror_aws_tags r (some (observe P rm r env))))
            × Kept (observe P rm r env) r1
            × (is_raised is_terminal (conditions_of r1) ≡ false)
            × (is_raised is_recoverable (conditions_of r1) ≡ false)
      unfolding report
      read_one_healthy named described healthy other u =
          let ko = observe P rm r env in
          let found =
            check_state-other healthy
            ∙ ap (or_observed E K ko) (handle_update_failed-other other) in
          let (r1, reported, t, c) =
            on_success_clears E rm ko (rw (observe-conditions P rm r env) u) in
          (
            r1,
            read_one-named named described ∙ rw (found, reported) refl,
            on_success-Kept E rm ko r1 _ reported,
            t,
            c,
          )
