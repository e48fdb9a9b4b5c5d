-- ===== src/Env/Manage/Lifecycle.antt =====
-- `Create` or `Update` of manager.go, and then `ReadOne` of what it returned.
mod Tests
use mwaa_controller.Common.{String, ◌≡◌, refl, ap, true, none, some, [], ok}
use mwaa_controller.Common.{returns}
use mwaa_controller.Common.{Option}
use mwaa_controller.Api.{Environment}
use mwaa_controller.Ext.Errors.{Errors}
use mwaa_controller.Ext.Sdk.{Client, SdkEnvironment}
use mwaa_controller.Ext.Compare.{Compare, CompareIsLawful}
use mwaa_controller.Ext.Runtime.{Conditions, Pointers, PointersIsLawful}
use mwaa_controller.Env.Calls.{Cloud, recording}
use mwaa_controller.Env.Delta.{differences}
use mwaa_controller.Env.Delta.Matches.{HasMaps}
use mwaa_controller.Env.Status.{Manager, arn_of, set_status_defaults}
use mwaa_controller.Env.Status.Returns.{on_success_keeps}
use mwaa_controller.Env.TagFields.{mirror_aws_tags}
use mwaa_controller.Env.Read.{observe}
use mwaa_controller.Env.Payload.Bounds.{InRange, create_input_of, create_payload_iff}
use mwaa_controller.Env.Payload.Echoes.{Echoes, IsNormal}
use mwaa_controller.Env.Write.{sdk_create, with_arn}
use mwaa_controller.Env.Manage.{create, update, read_one, report, is_synced}
use mwaa_controller.Env.Write.Guards.{available_may_update}
use mwaa_controller.Env.Manage.ReadBack.{read_back}
use mwaa_controller.Ext.Compare.{Deltas}
use mwaa_controller.Env.Write.{sdk_update, update_tags, after_tags}
use mwaa_controller.Env.Payload.Bounds.{update_input_of, update_payload_iff}
use mwaa_controller.Env.Payload.Echoes.{UpdateEchoes, OthersEcho, update-Echoes}
use mwaa_controller.Common.{Outcome, Option, panics}
use mwaa_controller.Env.Manage.Reads.{NotFailed}

-- The cloud once UpdateEnvironment has been sent with the payload of the resource, and recorded.
abbrev pub after_update :
    (E : Errors) (P : Pointers) (C : Client E) → Environment → Cloud E C → Cloud E C
after_update E P C desired cloud =
    recording E C cloud (C.update_environment (update_input_of P desired.spec) cloud.world).1
      "UPDATE" "UpdateEnvironment" none

module _ (E : Errors) (K : Conditions) (P : Pointers) (C : Client E) (rm : Manager) where
  module _ (r : Environment) (cloud : Cloud E C) where
    -- `Create` ends well: what it returns.
    create-ok :
        (arn : String)
        → InRange r.spec
        → (C.create_environment (create_input_of P r.spec) cloud.world).0 ≡ ok (some arn)
        → (r1 : Environment) × ((create E rm K P C (some r) cloud).0 ≡ returns (some r1, none))
          × (r1.spec ≡ r.spec)
          × (arn_of r1.status ≡ some arn)
    unfolding create report sdk_create set_status_defaults
    create-ok arn fits answered =
        let made = (create_payload_iff E P r.spec (create_input_of P r.spec)).1 (fits, refl) in
        let (r1, reported, spec, same_arn, _) =
          on_success_keeps E rm (set_status_defaults rm (with_arn (some arn) r)) in
        (r1, rw made (rw answered reported), spec, same_arn)

  module _ (D : Deltas) (delta : D.Delta) (desired latest : Environment) (cloud : Cloud E C) where
    -- `sdkUpdate` once the tags are in place.
    after_tags-ok :
        (arn : String) (tagged : Outcome (Option E.Error) × Cloud E C)
        → InRange desired.spec
        → D.different_except delta "Spec.Tags" ≡ true
        → tagged.0 ≡ returns none
        → (C.update_environment (update_input_of P desired.spec) tagged.1.world).0 ≡ ok (some arn)
        → after_tags E P C rm D delta desired tagged ≡ (
          returns (some (set_status_defaults rm (with_arn (some arn) desired)), none),
          after_update E P C desired tagged.1,
        )
    after_tags-ok arn (returns none, cloud) fits differ done answered =
        rw
          (
            differ,
            (update_payload_iff E P desired.spec (update_input_of P desired.spec)).1 (fits, refl),
            answered,
          )
          refl
    after_tags-ok arn (returns (some e), cloud) fits differ done answered = cc
    after_tags-ok arn (panics m, cloud) fits differ done answered = cc

    -- `Update` ends well: what it returns.
    update-ok :
        (arn : String)
        → InRange desired.spec
        → latest.status.status ≡ some "AVAILABLE"
        → D.different_except delta "Spec.Tags" ≡ true
        → let tagged = update_tags E P C rm D delta desired latest cloud in
          (tagged.0 ≡ returns none)
          → (C.update_environment (update_input_of P desired.spec) tagged.1.world).0 ≡ ok (some arn)
          → (r1 : Environment) × (update E rm K P C D (some desired) (some latest) delta cloud
              ≡ (returns (some r1, none), after_update E P C desired tagged.1))
            × (r1.spec ≡ desired.spec)
            × (arn_of r1.status ≡ some arn)
    unfolding update report sdk_update set_status_defaults
    update-ok arn fits available differ done answered =
        let tagged = update_tags E P C rm D delta desired latest cloud in
        let sent = after_tags-ok arn tagged fits differ done answered in
        let (r1, reported, spec, same_arn, _) =
          on_success_keeps E rm (set_status_defaults rm (with_arn (some arn) desired)) in
        (
          r1,
          rw (available_may_update E P C rm latest available)
              (rw sent (ap (λ a. (a, after_update E P C desired tagged.1)) reported)),
          spec,
          same_arn,
        )

  module _ (M : PointersIsLawful P) (Q : Compare) (L : CompareIsLawful Q) where
    -- If every number of the spec fits an `int32`, CreateEnvironment answers with an ARN, and the
    -- service later describes the environment with the values of the request, as AVAILABLE and
    -- with no failed update, then `Create` returns a resource with that ARN and no error, and
    -- `ReadOne` of it returns a resource with no error that is synced and whose spec shows no
    -- difference to the desired one. The resource has a name, its options and tags are maps, and
    -- it has no nil in its options and identifiers and no empty text for an enumeration;
    -- comparators and pointer helpers do as documented.
    pub create_then_read :
        (r : Environment) (cloud later : Cloud E C) (n arn : String) (env : SdkEnvironment)
        → InRange r.spec
        → HasMaps r.spec
        → IsNormal r.spec
        → r.spec.name ≡ some n
        → (C.create_environment (create_input_of P r.spec) cloud.world).0 ≡ ok (some arn)
        → (C.get_environment (some n) later.world).0 ≡ ok (some env)
        → Echoes (create_input_of P r.spec) env
        → env.status ≡ "AVAILABLE"
        → NotFailed env
        → (r1 r2 : Environment) × ((create E rm K P C (some r) cloud).0 ≡ returns (some r1, none))
          × (arn_of r1.status ≡ some arn)
          × ((read_one E rm K P C (some r1) later).0
              ≡ returns ((some r2, none), mirror_aws_tags r1 (some (observe P rm r1 env))))
          × (is_synced r2 ≡ true)
          × (differences Q r.spec r2.spec ≡ [])
    create_then_read r cloud later n arn env fits u normal named created found e available other =
        let (r1, made, spec, at) = create-ok r cloud arn fits created in
        let (r2, read, synced, same) =
          read_back E K P C rm M Q L r.spec r1 later n env spec fits u normal named found e
            available other in
        (r1, r2, made, at, read, synced, same)

    -- If every number of the desired spec fits an `int32`, the latest resource is AVAILABLE,
    -- something but the tags differs, the tags are in place or put in place without an error,
    -- UpdateEnvironment answers the payload of the desired spec with an ARN, and the service later
    -- describes the environment with the values of that request and with the desired tags and
    -- unchangeable fields, as AVAILABLE and with no failed update, then `Update` sends
    -- UpdateEnvironment with that payload, once and after the tags, records it, and returns a
    -- resource with that ARN and no error, and `ReadOne` of it returns a resource with no error
    -- that is synced and whose spec shows no difference to the desired one. The desired resource
    -- has a name, its options and tags are maps, and it has no nil in its options and identifiers
    -- and no empty text for an enumeration; comparators and pointer helpers do as documented.
    pub update_then_read :
        (D : Deltas) (delta : D.Delta) (desired latest : Environment) (cloud later : Cloud E C)
        (n arn : String) (env : SdkEnvironment)
        → InRange desired.spec
        → HasMaps desired.spec
        → IsNormal desired.spec
        → desired.spec.name ≡ some n
        → latest.status.status ≡ some "AVAILABLE"
        → D.different_except delta "Spec.Tags" ≡ true
        → (update_tags E P C rm D delta desired latest cloud).0 ≡ returns none
        → (C.update_environment
            (update_input_of P desired.spec)
            (update_tags E P C rm D delta desired latest cloud).1.world).0
          ≡ ok (some arn)
        → (C.get_environment (some n) later.world).0 ≡ ok (some env)
        → UpdateEchoes (update_input_of P desired.spec) env
        → OthersEcho P desired.spec env
        → env.status ≡ "AVAILABLE"
        → NotFailed env
        → (r1 r2 : Environment) × (update E rm K P C D (some desired) (some latest) delta cloud ≡ (
          returns (some r1, none),
          after_update E P C desired (update_tags E P C rm D delta desired latest cloud).1,
        ))
          × (arn_of r1.status ≡ some arn)
          × ((read_one E rm K P C (some r1) later).0
              ≡ returns ((some r2, none), mirror_aws_tags r1 (some (observe P rm r1 env))))
          × (is_synced r2 ≡ true)
          × (differences Q desired.spec r2.spec ≡ [])
    update_then_read D delta desired latest cloud later n arn env fits u normal named ready differ
          tagged updated found e o available other =
        let (r1, made, spec, at) =
          update-ok D delta desired latest cloud arn fits ready differ tagged updated in
        let (r2, read, synced, same) =
          read_back E K P C rm M Q L desired.spec r1 later n env spec fits u normal named found
            (update-Echoes P desired.spec env e o) available other in
        (r1, r2, made, at, read, synced, same)
