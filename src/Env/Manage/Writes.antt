-- ===== src/Env/Manage/Writes.antt =====
-- `Create`, `Update` and `Delete` keep that there is at most one condition of each type.
use mwaa_controller.Common.{String, Option, none, some, Outcome, returns, panics, Result, ok, err}
use mwaa_controller.Common.{Bool-cases, inl, inr, string_eq}
use mwaa_controller.Api.{Environment}
use mwaa_controller.Ext.Errors.{Errors}
use mwaa_controller.Ext.Sdk.{Client, CreateInput, UpdateInput}
use mwaa_controller.Ext.Compare.{Deltas}
use mwaa_controller.Ext.Runtime.{Conditions, Pointers}
use mwaa_controller.Env.Calls.{Cloud}
use mwaa_controller.Env.Status.{Manager, Answer, set_status_defaults}
use mwaa_controller.Env.Status.Reports.{conditions_of, UniqueKinds}
use mwaa_controller.Env.Status.Holds.{Holds, Answered, Holds-bind}
use mwaa_controller.Env.Write.{
  sdk_create, sdk_delete, deleted, send_create, merge_arn, sdk_update, send_update, after_tags,
  unless_unavailable, not_available, update_tags,
}
use mwaa_controller.Env.Manage.{create, update, delete}
use mwaa_controller.Env.Manage.Uniqueness.{report-Unique}

module _ (E : Errors) (K : Conditions) (P : Pointers) (C : Client E) (rm : Manager) where
  merge_arn-Unique :
      (r : Environment) (resp : Result E.Error (Option String))
      → UniqueKinds (conditions_of r)
      → Answered (merge_arn E P C rm r resp)
  unfolding set_status_defaults
  merge_arn-Unique r (err e) u = tt
  merge_arn-Unique r (ok arn) u = u

  send_create-Unique :
      (r : Environment) (input : Result E.Error CreateInput) (cloud : Cloud E C)
      → UniqueKinds (conditions_of r)
      → Answered (send_create E P C rm r input cloud).0
  send_create-Unique r (err e) cloud u = tt
  send_create-Unique r (ok input) cloud u =
      merge_arn-Unique r (C.create_environment input cloud.world).0 u

  pub create-Unique :
      (r : Environment) (cloud : Cloud E C)
      → UniqueKinds (conditions_of r)
      → Holds Answered (create E rm K P C (some r) cloud).0
  unfolding create sdk_create
  create-Unique r cloud u =
      report-Unique E rm r (sdk_create E P C rm r cloud).0 u (send_create-Unique r _ cloud u)

  module _ (D : Deltas) (delta : D.Delta) (desired latest : Environment) where
    send_update-Unique :
        (input : Result E.Error UpdateInput) (cloud : Cloud E C)
        → UniqueKinds (conditions_of desired)
        → Answered (send_update E P C rm D desired input cloud).0
    send_update-Unique (err e) cloud u = tt
    send_update-Unique (ok input) cloud u =
        merge_arn-Unique desired (C.update_environment input cloud.world).0 u

    after_tags-Unique :
        (tagged : Outcome (Option E.Error) × Cloud E C)
        → UniqueKinds (conditions_of desired)
        → Holds Answered (after_tags E P C rm D delta desired tagged).0
    after_tags-Unique (panics m, cloud) u = tt
    after_tags-Unique (returns (some e), cloud) u = tt
    after_tags-Unique (returns none, cloud) u =
        elim (Bool-cases (D.different_except delta "Spec.Tags")) [
          | inl differ ↦ rw differ (send_update-Unique _ cloud u)
          | inr same ↦ rw same u
        ]

    unless_unavailable-Unique :
        (e : Option E.Error) (rest : Outcome (Answer E) × Cloud E C) (cloud : Cloud E C)
        → Holds Answered rest.0
        → Holds Answered (unless_unavailable E P C rm D e rest cloud).0
    unless_unavailable-Unique none rest cloud h = h
    unless_unavailable-Unique (some e) rest cloud h = tt

    pub update-Unique :
        (cloud : Cloud E C)
        → UniqueKinds (conditions_of desired)
        → UniqueKinds (conditions_of latest)
        → Holds Answered (update E rm K P C D (some desired) (some latest) delta cloud).0
    unfolding update sdk_update
    update-Unique cloud u v =
        Holds-bind Answered Answered (sdk_update E P C rm D delta desired latest cloud).0 _
          (unless_unavailable-Unique (not_available E P C rm latest.status.status) _ cloud
            (after_tags-Unique (update_tags E P C rm D delta desired latest cloud) u))
          λ answer w. report-Unique E rm latest answer v w

  pub delete-Unique :
      (r : Environment) (cloud : Cloud E C)
      → UniqueKinds (conditions_of r)
      → Holds Answered (delete E rm K P C (some r) cloud).0
  unfolding delete sdk_delete
  delete-Unique r cloud u =
      report-Unique E rm r _ u (deleted-Unique (C.delete_environment r.spec.name cloud.world).0)
    where
      deleted-Unique : (resp : Result E.Error Unit) → Answered (deleted E P C rm resp)
      deleted-Unique (ok _) = tt
      deleted-Unique (err e) = tt
