-- ===== src/Env/Manage/Deletion.antt =====
-- `Delete` of manager.go, and then `ReadOne` while the service deletes the environment and after it.
use mwaa_controller.Common.{String, ◌≡◌, refl, ap, ◌∙◌, false, none, some, returns, ok, err, inr}
use mwaa_controller.Common.{string_eq, ◌⊎◌, inl}
use mathlib.Core.Path.{subst}
use mwaa_controller.Api.{Environment, is_terminal}
use mwaa_controller.Ext.Errors.{Errors, IsLawful}
use mwaa_controller.Ext.Sdk.{Client, SdkEnvironment}
use mwaa_controller.Ext.Runtime.{Conditions, Pointers}
use mwaa_controller.Env.Calls.{Cloud, recording}
use mwaa_controller.Env.Status.{Manager, on_success}
use mwaa_controller.Env.Status.Changes.{AtMostOne}
use mwaa_controller.Env.Status.Reports.{conditions_of}
use mwaa_controller.Env.TagFields.{mirror_aws_tags}
use mwaa_controller.Env.Read.{observe, enum_ptr, is_failure_state}
use mwaa_controller.Env.Read.Answers.{error_code_of}
use mwaa_controller.Env.Write.{sdk_delete}
use mwaa_controller.Env.Manage.{delete, read_one, report, is_synced}
use mwaa_controller.Env.Manage.Reads.{NotFailed}
use mwaa_controller.Env.Manage.ReadBack.{read_one-ok}
use mwaa_controller.Env.Manage.Missing.{read_one-Missing}

deleting_is_healthy : is_failure_state "DELETING" ≡ false
unfolding is_failure_state string_eq
deleting_is_healthy = refl

deleting_is_unsynced :
    (r : Environment) → r.status.status ≡ enum_ptr "DELETING" → is_synced r ≡ false
unfolding is_synced enum_ptr string_eq
deleting_is_unsynced r h = rw h refl

-- The cloud once DeleteEnvironment has been sent with the name, and recorded.
abbrev pub after_delete : (E : Errors) (C : Client E) → String → Cloud E C → Cloud E C
after_delete E C n cloud =
    recording E C cloud (C.delete_environment (some n) cloud.world).1 "DELETE" "DeleteEnvironment"
      none

module _ (E : Errors) (K : Conditions) (P : Pointers) (C : Client E) (rm : Manager) where
  -- DeleteEnvironment as documented: once it has been accepted, the service describes the
  -- environment as DELETING, and then knows it no more. `Later` holds of the worlds that can follow
  -- one, while nobody creates the environment again.
  pub record DeletesEnvironments (Later : C.World → C.World → Type 0) : Type 0 where
    pub deleting_or_gone :
        (n : String) (before after : C.World)
        → (C.delete_environment (some n) before).0 ≡ ok tt
        → Later (C.delete_environment (some n) before).1 after
        → ((env : SdkEnvironment) × ((C.get_environment (some n) after).0 ≡ ok (some env))
            × (env.status ≡ "DELETING"))
          ⊎ ((e : E.Error) × ((C.get_environment (some n) after).0 ≡ err e)
              × (error_code_of E K P C rm e ≡ some "ResourceNotFoundException"))

  delete-ok :
      (r : Environment) (n : String) (cloud : Cloud E C)
      → r.spec.name ≡ some n
      → (C.delete_environment (some n) cloud.world).0 ≡ ok tt
      → delete E rm K P C (some r) cloud ≡ (returns (none, none), after_delete E C n cloud)
  unfolding delete sdk_delete report on_success
  delete-ok r n cloud named done = rw named (rw done refl)

  -- `ReadOne` of an environment that is being deleted, or of one that is gone.
  abbrev pub ReadsDeleted : Environment → Cloud E C → Type 0
  ReadsDeleted r later =
      ((r1 : Environment) × (env : SdkEnvironment) × ((read_one E rm K P C (some r) later).0
          ≡ returns ((some r1, none), mirror_aws_tags r (some (observe P rm r env))))
        × (is_synced r1 ≡ false))
      ⊎ ((r1 : Environment) × ((read_one E rm K P C (some r) later).0
            ≡ returns ((some r1, some E.not_found), r)))

  module _ (L : IsLawful E) (Later : C.World → C.World → Type 0)
      (S : DeletesEnvironments Later) where
    -- If DeleteEnvironment answers without an error for the name of a resource, `Delete` sends it
    -- with that name, once, records it, and returns nil and no error. Whenever the world follows
    -- the one that `Delete` leaves, and the environment is not described with a failed update,
    -- `ReadOne` returns a resource that is not synced and no error, or `ackerr.NotFound`, from
    -- which the reconciler knows that it is gone. The service describes a deleted environment as
    -- DELETING until it answers with the code ResourceNotFoundException, errors behave as
    -- documented, and the resource has at most one Terminal condition.
    pub delete_then_read :
        (r : Environment) (cloud later : Cloud E C) (n : String)
        → r.spec.name ≡ some n
        → AtMostOne is_terminal (conditions_of r)
        → (C.delete_environment (some n) cloud.world).0 ≡ ok tt
        → Later (delete E rm K P C (some r) cloud).1.world later.world
        → ((env : SdkEnvironment)
            → (C.get_environment (some n) later.world).0 ≡ ok (some env)
            → NotFailed env)
        → (delete E rm K P C (some r) cloud ≡ (returns (none, none), after_delete E C n cloud))
          × ReadsDeleted r later
    delete_then_read r cloud later n named one done follows calm =
        let sent = delete-ok r n cloud named done in
        let follows' : Later (after_delete E C n cloud).world later.world =
          subst (λ c. Later c.1.world later.world) sent follows in
        (
          sent,
          elim (S.deleting_or_gone n cloud.world later.world done follows') [
            | inl (env, found, deleting) ↦
                let (r1, read, _, state) =
                  read_one-ok E K P C rm r later n env named found
                    (ap is_failure_state deleting ∙ deleting_is_healthy) (calm env found) in
                inl (r1, env, read, deleting_is_unsynced r1 (state ∙ ap enum_ptr deleting))
            | inr (e, gone, code) ↦
                let (r1, missing, _, _, _) =
                  read_one-Missing E K P C rm L r later (inr (n, e, named, gone, code)) one in
                inr (r1, missing)
          ],
        )
