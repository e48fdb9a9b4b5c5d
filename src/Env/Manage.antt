-- ===== src/Env/Manage.antt =====
-- The methods `ReadOne`, `Create`, `Update`, `Delete`, `IsSynced` and `ARNFromName` of
-- pkg/resource/environment/manager.go. An argument is the pointer in the resource, which a method
-- refuses by a panic where it is nil.
pub mod Reads
pub mod States
pub mod Uniqueness
pub mod Writes
pub mod Updates
pub mod Missing
pub mod Tagging
pub mod ReadBack
pub mod Lifecycle
pub mod Deletion
mod Tests
use mwaa_controller.Common.{String, ◌<>◌, Bool, false, Option, none, some, [], ◌∷◌}
use mwaa_controller.Common.{
  ◌==◌, string_eq, contains, if◌then◌else◌, Outcome, returns, panics, ◌>>=◌,
}
use mwaa_controller.Api.{Environment}
use mwaa_controller.Ext.Errors.{Errors}
use mwaa_controller.Ext.Sdk.{Client}
use mwaa_controller.Ext.Compare.{Deltas}
use mwaa_controller.Ext.Runtime.{Conditions, Pointers}
use mwaa_controller.Env.Calls.{Cloud}
use mwaa_controller.Env.Status.{Manager, Answer, on_error, on_success}
use mwaa_controller.Env.TagFields.{mirror_aws_tags}
use mwaa_controller.Env.Read.{sdk_find}
use mwaa_controller.Env.Write.{sdk_create, sdk_update, sdk_delete}

-- `ARNFromName`
unfoldable pub arn_from_name : Manager → String → String
arn_from_name rm name =
    "arn:aws:mwaa:" <> (rm.aws_region <> (":" <> (rm.aws_account_id <> (":" <> name))))

-- `IsSynced`
unfoldable pub is_synced : Environment → Bool
is_synced r = elim r.status.status [
  | none ↦ false
  | some status ↦ contains ("AVAILABLE" ∷ []) status
]

module _ (E : Errors) (rm : Manager) where
  -- The end of every method: errors are reported on what was returned beside them, or else on the
  -- resource at hand.
  unfoldable pub report : Environment → Answer E → Outcome (Answer E)
  report r (res, none) = on_success E rm res
  report r (some res, some e) = on_error E rm (some res) e
  report r (none, some e) = on_error E rm (some r) e

  module _ (K : Conditions) (P : Pointers) (C : Client E) where
    -- `ReadOne` after `sdkFind`: the answer, and the argument after the call.
    abbrev pub finish_read : Environment → Outcome (Answer E) → Outcome (Answer E × Environment)
    finish_read r found = found >>= λ answer.
        (let r' = mirror_aws_tags r answer.0 in
          report r' answer >>= λ reported. returns (reported, r'))

    -- `ReadOne`
    unfoldable pub read_one :
        Option Environment → Cloud E C → Outcome (Answer E × Environment) × Cloud E C
    read_one none cloud =
        (panics "resource manager's ReadOne() method received resource with nil CR object", cloud)
    read_one (some r) cloud =
        let (found, cloud') = sdk_find E K P C rm r cloud in (finish_read r found, cloud')

    -- `Create`
    unfoldable pub create : Option Environment → Cloud E C → Outcome (Answer E) × Cloud E C
    create none cloud =
        (panics "resource manager's Create() method received resource with nil CR object", cloud)
    create (some r) cloud =
        let (created, cloud') = sdk_create E P C rm r cloud in (report r created, cloud')

    -- `Update`
    unfoldable pub update :
        (D : Deltas)
        → Option Environment
        → Option Environment
        → D.Delta
        → Cloud E C
        → Outcome (Answer E) × Cloud E C
    update D (some desired) (some latest) delta cloud =
        let (updated, cloud') = sdk_update E P C rm D delta desired latest cloud in
        (updated >>= report latest, cloud')
    update D _ _ delta cloud =
        (panics "resource manager's Update() method received resource with nil CR object", cloud)

    -- `Delete`
    unfoldable pub delete : Option Environment → Cloud E C → Outcome (Answer E) × Cloud E C
    delete none cloud =
        (panics "resource manager's Update() method received resource with nil CR object", cloud)
    delete (some r) cloud =
        let (observed, cloud') = sdk_delete E P C rm r cloud in (report r observed, cloud')
