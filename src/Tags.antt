-- ===== src/Tags.antt =====
-- pkg/tags/sync.go: `SyncTags` over the interfaces `tagsClient` and `metricsRecorder` of that file.
-- The tags of a resource are read by the caller; the service keeps them in a state of its own.
pub mod Plan
pub mod Refines
mod Tests
use mwaa_controller.Common.{String, Bool, true, not, Option, none, some, List, [], ◌∷◌, ◌++◌}
use mwaa_controller.Common.{◌==◌, string_eq, if◌then◌else◌, Result, ok, err}
use mwaa_controller.Common.Dict.{Dict, lookup, has, insert}

-- `tagsClient` and `metricsRecorder`: the two calls and `RecordAPICall(opType, opID, err)`.
pub record TagsClient (X : Type 0) : Type 1 where
  pub State : Type 0
  pub tag_resource : String → Dict String → State → Result X (Unit {0}) × State
  pub untag_resource : String → List String → State → Result X (Unit {0}) × State
  pub record_api_call : String → String → Option X → State → State

-- `!found || ev != v`
abbrev pub is_stale : Option String → String → Bool
is_stale none v = true
is_stale (some ev) v = not (ev == v)

-- The loop over `desiredTags`, which fills `toAdd`.
unfoldable pub collect_add : Dict String → Dict String → Dict String → Dict String
collect_add existing [] to_add = to_add
collect_add existing ((k, v) ∷ desired) to_add =
    collect_add existing desired
      (if is_stale (lookup k existing) v then insert k v to_add else to_add)

-- The loop over `existingTags`, which fills `toDelete`.
unfoldable pub collect_delete : Dict String → Dict String → List String → List String
collect_delete desired [] to_delete = to_delete
collect_delete desired ((k, _) ∷ existing) to_delete =
    collect_delete desired existing (if has k desired then to_delete else to_delete ++ (k ∷ []))

abbrev pub error_of : {X : Type 0} → Result X (Unit {0}) → Option X
error_of (ok _) = none
error_of (err e) = some e

module _ {X : Type 0} (C : TagsClient X) (arn : String) where
  -- `if len(toAdd) > 0 { … }`
  unfoldable pub tag : Dict String → C.State → Option X × C.State
  tag [] s = (none, s)
  tag (e ∷ to_add) s =
      let (r, s') = C.tag_resource arn (e ∷ to_add) s in
      (error_of r, C.record_api_call "UPDATE" "TagResource" (error_of r) s')

  -- `if len(toDelete) > 0 { … }`
  unfoldable pub untag : List String → C.State → Option X × C.State
  untag [] s = (none, s)
  untag (k ∷ to_delete) s =
      let (r, s') = C.untag_resource arn (k ∷ to_delete) s in
      (error_of r, C.record_api_call "UPDATE" "UntagResource" (error_of r) s')

  abbrev pub unless_failed :
      Option X × C.State → (C.State → Option X × C.State) → Option X × C.State
  unless_failed (none, s) next = next s
  unless_failed (some e, s) next = (some e, s)

  unfoldable pub sync_tags : Dict String → Dict String → C.State → Option X × C.State
  unfolding tag untag collect_add collect_delete
  sync_tags desired existing s =
      unless_failed (tag (collect_add existing desired []) s)
        (untag (collect_delete desired existing []))
