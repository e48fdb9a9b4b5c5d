-- ===== src/Env/Manage/Tagging.antt =====
-- `Update` of manager.go where nothing but the tags differs.
mod Tests
use mathlib.Core.Option
use mwaa_controller.Common.{String, ◌≡◌, refl, ap, ◌∙◌, true, false, Option, none, some, elements}
use mwaa_controller.Common.{returns}
use mwaa_controller.Common.Dict.{lookup, NodupKeys}
use mwaa_controller.Api.{Environment}
use mwaa_controller.Ext.Errors.{Errors}
use mwaa_controller.Ext.Sdk.{Client}
use mwaa_controller.Ext.Compare.{Deltas}
use mwaa_controller.Ext.Runtime.{Conditions, Pointers, PointersIsLawful, text_of}
use mwaa_controller.Tags.{sync_tags}
use mwaa_controller.Tags.Refines.{TagsClientIsLawful, sync_tags-refines}
use mwaa_controller.Env.Calls.{Cloud}
use mwaa_controller.Env.Status.{Manager, arn_of}
use mwaa_controller.Env.Status.Returns.{on_success_keeps}
use mwaa_controller.Env.Write.{tags_client, update_tags, sdk_update}
use mwaa_controller.Env.Write.Guards.{available_may_update}
use mwaa_controller.Env.Manage.{update, report}

module _ (E : Errors) (K : Conditions) (P : Pointers) (C : Client E) (rm : Manager) where
  module _ (D : Deltas) (delta : D.Delta) (desired latest : Environment) (cloud : Cloud E C)
      (arn : String) where
    -- `SyncTags` as `sdkUpdate` calls it.
    abbrev synced : Option E.Error × Cloud E C
    synced =
        sync_tags (tags_client E P C rm) arn (P.to_string_map (elements desired.spec.tags))
          (P.to_string_map (elements latest.spec.tags)) cloud

    update_tags-synced :
        arn_of latest.status ≡ some arn
        → D.different_at delta "Spec.Tags" ≡ true
        → synced.0 ≡ none
        → update_tags E P C rm D delta desired latest cloud ≡ (returns none, synced.1)
    unfolding update_tags
    update_tags-synced known differ done = rw (differ, known) (ap (λ e. (returns e, synced.1)) done)

    sdk_update-synced :
        latest.status.status ≡ some "AVAILABLE"
        → arn_of latest.status ≡ some arn
        → D.different_at delta "Spec.Tags" ≡ true
        → D.different_except delta "Spec.Tags" ≡ false
        → synced.0 ≡ none
        → sdk_update E P C rm D delta desired latest cloud
          ≡ (returns (some desired, none), synced.1)
    unfolding sdk_update
    sdk_update-synced available known differ only done =
        rw (available_may_update E P C rm latest available)
          (rw (update_tags-synced known differ done) (rw only refl))

    module _ (M : PointersIsLawful P) (T : TagsClientIsLawful (tags_client E P C rm)) where
      -- If nothing but the tags differs, the latest resource is AVAILABLE, has an ARN and the tags
      -- that the service has, the desired tags are a map, and `SyncTags` returns no error, then
      -- `Update` returns a resource with the desired spec and no error, and the service has
      -- exactly the desired tags on that ARN, with nil read as an empty value, where the tag
      -- service and the pointer helpers do as documented.
      pub update_syncs_tags :
          latest.status.status ≡ some "AVAILABLE"
          → arn_of latest.status ≡ some arn
          → D.different_at delta "Spec.Tags" ≡ true
          → D.different_except delta "Spec.Tags" ≡ false
          → NodupKeys (elements desired.spec.tags)
          → ((k : String)
              → Option.map text_of (lookup k (elements latest.spec.tags)) ≡ T.tag_of cloud arn k)
          → synced.0 ≡ none
          → let (answer, cloud') = update E rm K P C D (some desired) (some latest) delta cloud in
            (r1 : Environment) × (answer ≡ returns (some r1, none))
            × (r1.spec ≡ desired.spec)
            × ((k : String)
                → T.tag_of cloud' arn k
                  ≡ Option.map text_of (lookup k (elements desired.spec.tags)))
      unfolding update report
      update_syncs_tags available known differ only maps had done =
          let sent = sdk_update-synced available known differ only done in
          let (r1, reported, spec, _, _) = on_success_keeps E rm desired in
          (
            r1,
            rw sent reported,
            spec,
            λ k.
                ap (λ x. T.tag_of x.1 arn k) sent
                ∙ sync_tags-refines (tags_client E P C rm) arn T
                    (P.to_string_map (elements desired.spec.tags))
                    (P.to_string_map (elements latest.spec.tags)) cloud
                    (M.to_string_map-NodupKeys _ maps)
                    (λ j. M.lookup-to_string_map j (elements latest.spec.tags) ∙ had j) done k
                ∙ M.lookup-to_string_map k (elements desired.spec.tags),
          )
