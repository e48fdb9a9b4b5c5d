-- ===== src/Env/Manage/Updates.antt =====
-- How `Create` and `Update` of manager.go end.
use mwaa_controller.Common.{String, ◌≡◌, refl, sym, ap, ◌∙◌, ◌<>◌, false, none, some}
use mwaa_controller.Common.{arith, Outcome, returns, panics, ◌>>=◌, ok}
use mwaa_controller.Common.{string_eq}
use mwaa_controller.Api.{Environment, is_terminal, is_recoverable}
use mwaa_controller.Ext.Errors.{Errors, IsLawful}
use mwaa_controller.Ext.Sdk.{Client}
use mwaa_controller.Ext.Compare.{Deltas}
use mwaa_controller.Ext.Runtime.{Conditions, Pointers}
use mwaa_controller.Env.Calls.{Cloud}
use mwaa_controller.Env.Status.{
  Manager, arn_of, Answer, is_terminal_error, terminal_by_text, terminal_aws_error,
}
use mwaa_controller.Env.Status.{recoverable_message, is_raised, set_status_defaults}
use mwaa_controller.Env.Status.Changes.{AtMostOne, Raised}
use mwaa_controller.Env.Status.Reports.{conditions_of, on_error_recoverable}
use mwaa_controller.Env.Status.Reports.{on_success_clears, UniqueKinds}
use mwaa_controller.Env.Status.Returns.{on_error_total, on_success_total, on_success_keeps}
use mwaa_controller.Env.Status.Same.{Kept, on_error-Kept}
use mwaa_controller.Env.Payload.Bounds.{InRange, create_input_of, create_payload_iff}
use mwaa_controller.Env.Write.{sdk_update, sdk_create, not_available}
use mwaa_controller.Env.Write.{with_arn}
use mwaa_controller.Env.Write.Guards.{sdk_update_total}
use mwaa_controller.Env.Manage.{update, create, report, is_synced}

-- The error of an update of an environment that is not AVAILABLE.
abbrev pub unavailable_error : (E : Errors) → String → E.Error
unavailable_error E status =
    E.needed_after
      (some
        (E.errorf ("environment is in " <> (status <> " state, cannot update until AVAILABLE"))))
      E.default_requeue_after

module _ (E : Errors) (L : IsLawful E) (rm : Manager) where
  -- Reporting an answer never panics.
  pub report_total :
      (r : Environment) (answer : Answer E) → (a : Answer E) × (report E rm r answer ≡ returns a)
  unfolding report
  report_total r (res, none) = on_success_total E rm res
  report_total r (some res, some e) = on_error_total E rm L (some res) e
  report_total r (none, some e) = on_error_total E rm L (some r) e

  requeue_is_recoverable :
      (m : String)
      → is_terminal_error E (E.needed_after (some (E.errorf m)) E.default_requeue_after) ≡ false
  unfolding is_terminal_error terminal_aws_error terminal_by_text
  requeue_is_recoverable m = ground (
    arith,
    L.needed_after_api (E.errorf m) E.default_requeue_after,
    L.errorf_api m,
    L.needed_after_terminal (E.errorf m) E.default_requeue_after,
    L.errorf_terminal m,
    L.needed_after_secret_type (E.errorf m) E.default_requeue_after,
    L.needed_after_secret (E.errorf m) E.default_requeue_after,
  )

  module _ (K : Conditions) (P : Pointers) (C : Client E) (cloud : Cloud E C) where
    -- `Create` returns for every resource.
    pub create_total :
        (r : Environment) → (a : Answer E) × ((create E rm K P C (some r) cloud).0 ≡ returns a)
    unfolding create
    create_total r = report_total r (sdk_create E P C rm r cloud).0

    module _ (D : Deltas) (delta : D.Delta) (desired latest : Environment) where
      bind_total :
          (answer : Outcome (Answer E)) (a : Answer E)
          → answer ≡ returns a
          → (b : Answer E) × ((answer >>= report E rm latest) ≡ returns b)
      bind_total (panics m) a h = cc
      bind_total (returns x) a h = report_total latest x

      -- `Update` of an environment whose ARN is known returns: it does not panic, whatever
      -- differs, whatever the state is and whatever the service answers, where errors behave as
      -- documented.
      pub update_total :
          (arn : String)
          → arn_of latest.status ≡ some arn
          → (a : Answer E) × ((update E rm K P C D (some desired) (some latest) delta cloud).0
              ≡ returns a)
      unfolding update
      update_total arn known =
          let (a, h) = sdk_update_total E P C rm D delta desired latest cloud arn known in
          bind_total (sdk_update E P C rm D delta desired latest cloud).0 a h

      not_available-eq :
          (status : String)
          → latest.status.status ≡ some status
          → is_synced latest ≡ false
          → not_available E P C rm latest.status.status ≡ some (unavailable_error E status)
      unfolding not_available is_synced
      not_available-eq status h unsynced = rw h (ground (arith, rw h at unsynced))

      -- `Update` of an environment with a state in which `IsSynced` is false makes no call. It
      -- returns the error that asks for another try and the latest resource, the same but for its
      -- conditions and the account and region in its metadata; the Recoverable condition is True
      -- with the text of the error, the Terminal one is not True. Errors behave as documented, and
      -- the latest resource has at most one Terminal condition.
      pub update_unavailable :
          (status : String)
          → latest.status.status ≡ some status
          → is_synced latest ≡ false
          → AtMostOne is_terminal (conditions_of latest)
          → let e = unavailable_error E status in
            (r1 : Environment) × (update E rm K P C D (some desired) (some latest) delta cloud
              ≡ (returns (some r1, some e), cloud))
            × Kept latest r1
            × Raised is_recoverable (recoverable_message E e) (conditions_of r1)
            × (is_raised is_terminal (conditions_of r1) ≡ false)
      unfolding update sdk_update report
      update_unavailable status h unsynced one =
          let e = unavailable_error E status in
          let (r1, reported, raised, calm) =
            on_error_recoverable E L rm latest e (requeue_is_recoverable _) one in
          (
            r1,
            rw (not_available-eq status h unsynced, reported) refl,
            on_error-Kept E rm latest r1 e _ reported,
            raised,
            calm,
          )

    -- The answer of `sdkCreate` in this case.
    sdk_create-ok :
        (r : Environment) (arn : String)
        → InRange r.spec
        → (C.create_environment (create_input_of P r.spec) cloud.world).0 ≡ ok (some arn)
        → (sdk_create E P C rm r cloud).0
          ≡ (some (set_status_defaults rm (with_arn (some arn) r)), none)
    unfolding sdk_create
    sdk_create-ok r arn fits answered =
        rw ((create_payload_iff E P r.spec (create_input_of P r.spec)).1 (fits, refl))
          (rw answered refl)

    arn_of-created :
        (r : Environment) (arn : String)
        → arn_of (set_status_defaults rm (with_arn (some arn) r)).status ≡ some arn
    unfolding set_status_defaults
    arn_of-created r arn = refl

    conditions_of-created :
        (r : Environment) (arn : String)
        → conditions_of (set_status_defaults rm (with_arn (some arn) r)) ≡ conditions_of r
    unfolding set_status_defaults
    conditions_of-created r arn = refl

    spec-created :
        (r : Environment) (arn : String)
        → (set_status_defaults rm (with_arn (some arn) r)).spec ≡ r.spec
    unfolding set_status_defaults
    spec-created r arn = refl

    -- If every number of the spec fits an `int32`, CreateEnvironment answers with an ARN, and the
    -- resource has at most one condition of each type, then `Create` returns the desired spec with
    -- that ARN in its status and no error, and neither the Terminal nor the Recoverable condition
    -- is True.
    pub create_succeeds :
        (r : Environment) (arn : String)
        → InRange r.spec
        → (C.create_environment (create_input_of P r.spec) cloud.world).0 ≡ ok (some arn)
        → UniqueKinds (conditions_of r)
        → (r1 : Environment) × ((create E rm K P C (some r) cloud).0 ≡ returns (some r1, none))
          × (r1.spec ≡ r.spec)
          × (arn_of r1.status ≡ some arn)
          × (is_raised is_terminal (conditions_of r1) ≡ false)
          × (is_raised is_recoverable (conditions_of r1) ≡ false)
    unfolding create report
    create_succeeds r arn fits answered u =
        let ko = set_status_defaults rm (with_arn (some arn) r) in
        let (r1, cleared, t, c) = on_success_clears E rm ko (rw (conditions_of-created r arn) u) in
        let (r2, kept, spec, same_arn, _) = on_success_keeps E rm ko in
        let one : r2 ≡ r1 = cc in
        (
          r1,
          rw (sdk_create-ok r arn fits answered, cleared) refl,
          ap (λ x. x.spec) (sym one) ∙ spec ∙ spec-created r arn,
          ap (λ x. arn_of x.status) (sym one) ∙ same_arn ∙ arn_of-created r arn,
          t,
          c,
        )
