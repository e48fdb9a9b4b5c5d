-- ===== src/Env/Write.antt =====
-- `sdkCreate`, `sdkUpdate` and `sdkDelete` of pkg/resource/environment/sdk.go, the second with the
-- hook of templates/hooks/environment/sdk_update_pre_build_request.go.tpl.
pub mod Guards
mod Tests
use mwaa_controller.Common.{String, ◌<>◌, not, Option, none, some, elements}
use mwaa_controller.Common.{◌∷◌, ◌++◌, ◌==◌, string_eq, if◌then◌else◌, Outcome, returns, panics}
use mwaa_controller.Common.{Result, ok, err}
use mwaa_controller.Api.{Environment}
use mwaa_controller.Ext.Errors.{Errors}
use mwaa_controller.Ext.Sdk.{Client, CreateInput, UpdateInput}
use mwaa_controller.Ext.Compare.{Deltas}
use mwaa_controller.Ext.Runtime.{Pointers}
use mwaa_controller.Tags.{TagsClient, sync_tags}
use mwaa_controller.Env.Calls.{Cloud, call, recording}
use mwaa_controller.Env.Status.{Manager, Answer, arn_of, set_status_defaults, metadata_of}
use mwaa_controller.Env.Read.{read_arn}
use mwaa_controller.Env.Payload.{new_create_request_payload, new_update_request_payload}

-- The ARN of the response goes into the copy of the desired resource.
abbrev pub with_arn : Option String → Environment → Environment
with_arn arn ko = record ko {
  status = record (ko.status) {
    ack_resource_metadata = some (read_arn arn (metadata_of ko.status.ack_resource_metadata));
  };
}

-- `newDeleteRequestPayload`: the input's only field.
abbrev pub delete_payload : Environment → Option String
delete_payload r = r.spec.name

module _ (E : Errors) (P : Pointers) (C : Client E) (rm : Manager) where
  -- From the answer of CreateEnvironment or UpdateEnvironment on.
  abbrev pub merge_arn : Environment → Result E.Error (Option String) → Answer E
  merge_arn desired (err e) = (none, some e)
  merge_arn desired (ok arn) = (some (set_status_defaults rm (with_arn arn desired)), none)

  -- `sdkCreate` from the payload on.
  abbrev pub send_create :
      Environment → Result E.Error CreateInput → Cloud E C → Answer E × Cloud E C
  send_create desired (err e) cloud = ((none, some e), cloud)
  send_create desired (ok input) cloud =
      let (resp, cloud') =
        call E C "CREATE" "CreateEnvironment" (C.create_environment input) cloud in
      (merge_arn desired resp, cloud')

  -- `sdkCreate`
  unfoldable pub sdk_create : Environment → Cloud E C → Answer E × Cloud E C
  sdk_create desired cloud = send_create desired (new_create_request_payload E P desired.spec) cloud

  -- `rm.sdkapi` and `rm.metrics` as `SyncTags` takes them.
  abbrev pub tags_client : TagsClient E.Error
  tags_client = record {
    State = Cloud E C;
    tag_resource = λ arn tags cloud.
        let (r, w) = C.tag_resource arn tags cloud.world in (r, record cloud { world = w });
    untag_resource = λ arn keys cloud.
        let (r, w) = C.untag_resource arn keys cloud.world in (r, record cloud { world = w });
    record_api_call = λ op_type op_id e cloud. recording E C cloud cloud.world op_type op_id e;
  }

  -- The first test of `sdkUpdate`: the error for an environment that is not AVAILABLE.
  unfoldable pub not_available : Option String → Option E.Error
  not_available none = none
  not_available (some status) =
      if not (status == "AVAILABLE")
      then some (
          E.needed_after
            (some (
              E.errorf
                ("environment is in " <> (status <> " state, cannot update until AVAILABLE"))))
            E.default_requeue_after)
      else none

  module _ (D : Deltas) where
    -- The tags, if they differ.
    abbrev pub sync_tags_at :
        Option String → Environment → Environment → Cloud E C → Outcome (Option E.Error) × Cloud E C
    sync_tags_at none desired latest cloud = (panics "nil pointer dereference", cloud)
    sync_tags_at (some arn) desired latest cloud =
        let (e, cloud') =
          sync_tags tags_client arn (P.to_string_map (elements desired.spec.tags))
            (P.to_string_map (elements latest.spec.tags)) cloud in
        (returns e, cloud')

    unfoldable pub update_tags :
        D.Delta → Environment → Environment → Cloud E C → Outcome (Option E.Error) × Cloud E C
    update_tags delta desired latest cloud =
        if D.different_at delta "Spec.Tags"
        then sync_tags_at (arn_of latest.status) desired latest cloud
        else (returns none, cloud)

    -- UpdateEnvironment, from the payload on.
    abbrev pub send_update :
        Environment → Result E.Error UpdateInput → Cloud E C → Answer E × Cloud E C
    send_update desired (err e) cloud = ((none, some e), cloud)
    send_update desired (ok input) cloud =
        let (resp, cloud') =
          call E C "UPDATE" "UpdateEnvironment" (C.update_environment input) cloud in
        (merge_arn desired resp, cloud')

    -- `sdkUpdate` after the tags.
    abbrev pub after_tags :
        D.Delta
        → Environment
        → Outcome (Option E.Error) × Cloud E C
        → Outcome (Answer E) × Cloud E C
    after_tags delta desired (panics message, cloud) = (panics message, cloud)
    after_tags delta desired (returns (some e), cloud) = (returns (none, some e), cloud)
    after_tags delta desired (returns none, cloud) =
        if not (D.different_except delta "Spec.Tags")
        then (returns (some desired, none), cloud)
        else (let (answer, cloud') =
              send_update desired (new_update_request_payload E P desired.spec) cloud in
            (returns answer, cloud'))

    abbrev pub unless_unavailable :
        Option E.Error → Outcome (Answer E) × Cloud E C → Cloud E C → Outcome (Answer E) × Cloud E C
    unless_unavailable (some e) rest cloud = (returns (none, some e), cloud)
    unless_unavailable none rest cloud = rest

    -- `sdkUpdate`
    unfoldable pub sdk_update :
        D.Delta → Environment → Environment → Cloud E C → Outcome (Answer E) × Cloud E C
    sdk_update delta desired latest cloud =
        unless_unavailable (not_available latest.status.status)
          (after_tags delta desired (update_tags delta desired latest cloud)) cloud

  abbrev pub deleted : Result E.Error Unit → Answer E
  deleted (ok _) = (none, none)
  deleted (err e) = (none, some e)

  -- `sdkDelete`
  unfoldable pub sdk_delete : Environment → Cloud E C → Answer E × Cloud E C
  sdk_delete r cloud =
      let (resp, cloud') =
        call E C "DELETE" "DeleteEnvironment" (C.delete_environment (delete_payload r)) cloud in
      (deleted resp, cloud')
