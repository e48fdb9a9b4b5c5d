-- ===== src/Env/TagFields.antt =====
-- pkg/resource/environment/tags.go, and the methods of manager.go on `Spec.Tags`: `EnsureTags`,
-- `FilterSystemTags` and `mirrorAWSTags`. They change the resource that they are given.
pub mod Lookup
mod Tests
use text.Mathlib.Text.{starts_with}
use mwaa_controller.Common.{String, Bool, ◌||◌, Option, none, some, List, [], ◌∷◌, elements}
use mwaa_controller.Common.{contains, string_eq, if◌then◌else◌}
use mwaa_controller.Common.Dict.{Dict, insert}
use mwaa_controller.Api.{Environment}
use mwaa_controller.Ext.Runtime.{TagTools, text_of}

-- The loop of `convertToOrderedACKTags`.
unfoldable pub to_ack_tags : Dict (Option String) → Dict String → Dict String
to_ack_tags [] result = result
to_ack_tags ((k, v) ∷ tags) result = to_ack_tags tags (insert k (text_of v) result)

-- `convertToOrderedACKTags`; a nil map has no entries, and the key order stays empty.
unfoldable pub convert_to_ordered_ack_tags :
    Option (Dict (Option String)) → Dict String × List String
unfolding to_ack_tags
convert_to_ordered_ack_tags tags = (to_ack_tags (elements tags) [], [])

-- The loop of `fromACKTags`.
unfoldable pub of_ack_tags : Dict String → Dict (Option String) → Dict (Option String)
of_ack_tags [] result = result
of_ack_tags ((k, v) ∷ tags) result = of_ack_tags tags (insert k (some v) result)

-- `fromACKTags`; the result is never nil.
unfoldable pub from_ack_tags : Dict String → List String → Option (Dict (Option String))
unfolding of_ack_tags
from_ack_tags tags key_order = some (of_ack_tags tags [])

-- `strings.HasPrefix(k, "aws:")`, and the test of `ignoreSystemTags`.
abbrev pub is_aws : String → Bool
is_aws k = starts_with k "aws:"

abbrev pub is_system : List String → String → Bool
is_system system_tags k = is_aws k || contains system_tags k

-- `ignoreSystemTags`: the entries that the loop does not delete.
unfoldable pub ignore_system_tags : Dict String → List String → Dict String
ignore_system_tags [] system_tags = []
ignore_system_tags ((k, v) ∷ tags) system_tags =
    let rest = ignore_system_tags tags system_tags in
    if is_system system_tags k then rest else (k, v) ∷ rest

-- `syncAWSTags(a, b)`, a loop over `b` that writes into `a`.
unfoldable pub sync_aws_tags : Dict String → Dict String → Dict String
sync_aws_tags a [] = a
sync_aws_tags a ((k, v) ∷ b) = sync_aws_tags (if is_aws k then insert k v a else a) b

abbrev pub with_tags : Environment → Option (Dict (Option String)) → Environment
with_tags ko tags = record ko { spec = record (ko.spec) { tags = tags } }

-- `EnsureTags`
unfoldable pub ensure_tags : TagTools → Environment → Environment
unfolding convert_to_ordered_ack_tags from_ack_tags
ensure_tags T ko =
    let (resource_tags, key_order) = convert_to_ordered_ack_tags ko.spec.tags in
    with_tags ko (from_ack_tags (T.merge resource_tags (T.default_tags ko)) key_order)

-- `FilterSystemTags`
unfoldable pub filter_system_tags : Environment → List String → Environment
unfolding convert_to_ordered_ack_tags from_ack_tags ignore_system_tags
filter_system_tags ko system_tags =
    let (resource_tags, tag_key_order) = convert_to_ordered_ack_tags ko.spec.tags in
    with_tags ko (from_ack_tags (ignore_system_tags resource_tags system_tags) tag_key_order)

-- `mirrorAWSTags(a, b)`: what `a` is afterwards. The second resource may be nil.
unfoldable pub mirror_aws_tags : Environment → Option Environment → Environment
unfolding convert_to_ordered_ack_tags from_ack_tags sync_aws_tags
mirror_aws_tags a none = a
mirror_aws_tags a (some b) =
    let (desired_tags, desired_tag_key_order) = convert_to_ordered_ack_tags a.spec.tags in
    let (latest_tags, _) = convert_to_ordered_ack_tags b.spec.tags in
    with_tags a (from_ack_tags (sync_aws_tags desired_tags latest_tags) desired_tag_key_order)
