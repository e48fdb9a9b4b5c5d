-- ===== src/Env/Manage/Tests.antt =====
-- The results on `ReadOne`, `Create` and `Update`, on the sample environment.
use mwaa_controller.Common.{◌≡◌, refl, string_eq, true, false, none, some, returns, ok}
use mwaa_controller.Api.{Environment, is_terminal, is_recoverable}
use mwaa_controller.Env.Status.{Answer, set_status_defaults, is_raised, recoverable_message}
use mwaa_controller.Env.Status.Changes.{Raised}
use mwaa_controller.Env.Status.Reports.{conditions_of}
use mwaa_controller.Env.Status.Same.{Kept}
use mwaa_controller.Env.Status.Synced.{Synced}
use mwaa_controller.Api.{status_false}
use mwaa_controller.Samples.Kinds.{sample_conditions-SetsSynced}
use mwaa_controller.Env.TagFields.{mirror_aws_tags}
use mwaa_controller.Env.Hooks.{update_failed_message}
use mwaa_controller.Env.Read.{observe, read_last_update, is_failure_state, set_output, read_status}
use mwaa_controller.Env.Manage.{read_one, update, delete, is_synced}
use mwaa_controller.Env.Manage.Reads.{marked, update_failed_error, read_one_failed}
use mwaa_controller.Env.Manage.Reads.{read_one_update_failed, read_one_healthy, NotFailed}
use mwaa_controller.Env.Manage.Updates.{unavailable_error, update_total, update_unavailable}
use mwaa_controller.Common.{err, inr}
use mwaa_controller.Env.Manage.States.{states_agree}
use mwaa_controller.Env.Manage.Deletion.{
  delete_then_read, DeletesEnvironments, ReadsDeleted, after_delete,
}
use mathlib.Core.Path.{subst}
use mwaa_controller.Common.{Option, Result, inl, ok}
use mwaa_controller.Ext.Sdk.{SdkEnvironment}
use mwaa_controller.Api.Enums.{available, create_failed as failed_state, unavailable}
use mwaa_controller.Env.Write.{not_available}
use mwaa_controller.Common.{◌↔◌, ◌⊎◌}
use mwaa_controller.Env.Manage.Missing.{read_one-Missing}
use mwaa_controller.Samples.Faults.{Fault, gone, faults, faults-IsLawful}
use mwaa_controller.Samples.Maps.{pointers}
use mwaa_controller.Samples.Cloud.{sample_client, cloud_of, sample_conditions, sample_deltas}
use mwaa_controller.Samples.Resources.{manager, prod, described, failed_update, prod-UniqueKinds}
use mwaa_controller.Common.{List, [], ◌∷◌}
use mwaa_controller.Ext.Compare.{Difference, nil}

create_failed : is_failure_state "CREATE_FAILED" ≡ true
unfolding is_failure_state string_eq
create_failed = refl

available_is_healthy : is_failure_state "AVAILABLE" ≡ false
unfolding is_failure_state string_eq
available_is_healthy = refl

creating_is_unsynced : is_synced (prod (some "CREATING")) ≡ false
unfolding is_synced string_eq
creating_is_unsynced = refl

never_failed : NotFailed (described "AVAILABLE" none)
never_failed h = cc

-- A delta with nothing but the tags.
abbrev tags_differ : List Difference
tags_differ = record { path = "Spec.Tags"; a = nil; b = nil } ∷ []

read_one_failed_example :
    (r1 : Environment) × ((read_one faults manager sample_conditions pointers sample_client
        (some (prod none))
        (cloud_of (ok (some (described "CREATE_FAILED" none))))).0
      ≡ returns (
        (some r1, some faults.terminal),
        mirror_aws_tags
            (prod none)
            (some (observe pointers manager (prod none) (described "CREATE_FAILED" none))),
      ))
    × Kept (observe pointers manager (prod none) (described "CREATE_FAILED" none)) r1
    × Raised is_terminal
        (faults.text (
          faults.new_terminal_error
            (faults.errorf "environment is in terminal state: CREATE_FAILED")))
        (conditions_of r1)
read_one_failed_example =
    read_one_failed faults sample_conditions pointers sample_client manager (prod none)
      (cloud_of (ok (some (described "CREATE_FAILED" none)))) "prod"
      (described "CREATE_FAILED" none) faults-IsLawful refl refl create_failed

read_one_update_failed_example :
    let u = read_last_update failed_update in
    let e = update_failed_error faults (update_failed_message u) in
    let ko =
      marked faults sample_conditions pointers sample_client manager
        (prod none)
        (cloud_of (ok (some (described "AVAILABLE" (some failed_update)))))
        "prod"
        (described "AVAILABLE" (some failed_update))
        u in
    (r1 : Environment) × ((read_one faults manager sample_conditions pointers sample_client
        (some (prod none))
        (cloud_of (ok (some (described "AVAILABLE" (some failed_update)))))).0
      ≡ returns ((some r1, some e), mirror_aws_tags (prod none) (some ko)))
    × Kept (observe pointers manager (prod none) (described "AVAILABLE" (some failed_update))) r1
    × Synced status_false (some (update_failed_message u)) (conditions_of r1)
    × Raised is_recoverable (recoverable_message faults e) (conditions_of r1)
    × (is_raised is_terminal (conditions_of r1) ≡ false)
unfolding observe set_output read_status set_status_defaults
read_one_update_failed_example =
    read_one_update_failed faults sample_conditions pointers sample_client manager (prod none)
      (cloud_of (ok (some (described "AVAILABLE" (some failed_update))))) "prod"
      (described "AVAILABLE" (some failed_update)) faults-IsLawful sample_conditions-SetsSynced
      failed_update refl refl available_is_healthy refl refl
      (λ _. refl, (λ _. refl, (λ _. refl, tt)))

read_one_healthy_example :
    (r1 : Environment) × ((read_one faults manager sample_conditions pointers sample_client
        (some (prod none))
        (cloud_of (ok (some (described "AVAILABLE" none))))).0
      ≡ returns (
        (some r1, none),
        mirror_aws_tags
            (prod none)
            (some (observe pointers manager (prod none) (described "AVAILABLE" none))),
      ))
    × Kept (observe pointers manager (prod none) (described "AVAILABLE" none)) r1
    × (is_raised is_terminal (conditions_of r1) ≡ false)
    × (is_raised is_recoverable (conditions_of r1) ≡ false)
read_one_healthy_example =
    read_one_healthy faults sample_conditions pointers sample_client manager (prod none)
      (cloud_of (ok (some (described "AVAILABLE" none)))) "prod" (described "AVAILABLE" none)
      faults-IsLawful refl refl available_is_healthy never_failed prod-UniqueKinds

update_total_example :
    (a : Answer faults) × ((update faults manager sample_conditions pointers sample_client
        sample_deltas
        (some (prod none))
        (some (prod (some "AVAILABLE")))
        tags_differ
        (cloud_of (ok none))).0
      ≡ returns a)
update_total_example =
    update_total faults faults-IsLawful manager sample_conditions pointers sample_client
      (cloud_of (ok none)) sample_deltas tags_differ (prod none) (prod (some "AVAILABLE"))
      "arn:aws:mwaa:us-west-2:1:environment/prod" refl

update_unavailable_example :
    let e = unavailable_error faults "CREATING" in
    (r1 : Environment) × (update faults manager sample_conditions pointers sample_client
        sample_deltas
        (some (prod none))
        (some (prod (some "CREATING")))
        tags_differ
        (cloud_of (ok none))
      ≡ (returns (some r1, some e), cloud_of (ok none)))
    × Kept (prod (some "CREATING")) r1
    × Raised is_recoverable (recoverable_message faults e) (conditions_of r1)
    × (is_raised is_terminal (conditions_of r1) ≡ false)
update_unavailable_example =
    update_unavailable faults faults-IsLawful manager sample_conditions pointers sample_client
      (cloud_of (ok none)) sample_deltas tags_differ (prod none) (prod (some "CREATING")) "CREATING"
      refl creating_is_unsynced (prod-UniqueKinds.one_terminal)

read_one-Missing_example :
    (r1 : Environment) × ((read_one faults manager sample_conditions pointers sample_client
        (some (prod none))
        (cloud_of (err gone))).0
      ≡ returns ((some r1, some faults.not_found), prod none))
    × Kept (prod none) r1
    × Raised is_recoverable (faults.text faults.not_found) (conditions_of r1)
    × (is_raised is_terminal (conditions_of r1) ≡ false)
read_one-Missing_example =
    read_one-Missing faults sample_conditions pointers sample_client manager faults-IsLawful
      (prod none) (cloud_of (err gone)) (inr ("prod", gone, refl, refl, refl))
      (prod-UniqueKinds.one_terminal)

states_agree_example :
    ((is_synced (prod (some "AVAILABLE")) ≡ true) ↔ (available ≡ available))
    × ((not_available faults pointers sample_client manager (some "AVAILABLE") ≡ none)
        ↔ (available ≡ available))
    × ((is_failure_state "AVAILABLE" ≡ true)
        ↔ ((available ≡ failed_state) ⊎ (available ≡ unavailable)))
states_agree_example =
    states_agree faults pointers sample_client manager available (prod (some "AVAILABLE")) refl

-- The worlds that follow an accepted delete.
abbrev Deleting : (w after : Result Fault (Option SdkEnvironment)) → Type 0
Deleting w after = (after ≡ ok (some (described "DELETING" none))) ⊎ (after ≡ err gone)

sample-DeletesEnvironments :
    DeletesEnvironments faults sample_conditions pointers sample_client manager Deleting
sample-DeletesEnvironments = record {
  deleting_or_gone = λ n before after done follows. elim follows [
    | inl deleting ↦ inl (_, deleting, refl)
    | inr missing ↦ inr (_, missing, refl)
  ];
}

never_updated : NotFailed (described "DELETING" none)
never_updated h = cc

deleting-NotFailed :
    (env : SdkEnvironment)
    → (sample_client.get_environment
        (some "prod")
        (cloud_of (ok (some (described "DELETING" none)))).world).0
      ≡ ok (some env)
    → NotFailed env
deleting-NotFailed env h =
    let same : described "DELETING" none ≡ env = cc in subst NotFailed same never_updated

delete_then_read_example :
    (delete faults manager sample_conditions pointers sample_client
        (some (prod none))
        (cloud_of (ok none))
      ≡ (returns (none, none), after_delete faults sample_client "prod" (cloud_of (ok none))))
    × ReadsDeleted faults sample_conditions pointers sample_client manager
        (prod none)
        (cloud_of (ok (some (described "DELETING" none))))
delete_then_read_example =
    delete_then_read faults sample_conditions pointers sample_client manager faults-IsLawful
      Deleting sample-DeletesEnvironments (prod none) (cloud_of (ok none))
      (cloud_of (ok (some (described "DELETING" none)))) "prod" refl prod-UniqueKinds.one_terminal
      refl (inl refl) deleting-NotFailed
