-- ===== src/Env/TagFields/Tests.antt =====
-- The results on tags, on the sample environment.
use mwaa_controller.Common.{
  ◌≡◌, refl, string_eq, ◌&&◌, none, some, [], ◌∷◌, is_some, if◌then◌else◌, elements,
}
use mwaa_controller.Common.Dict.{lookup, NodupKeys}
use mwaa_controller.Api.{Environment}
use mwaa_controller.Env.TagFields.{ensure_tags, mirror_aws_tags, is_aws}
use mwaa_controller.Env.TagFields.Lookup.{tag_at, ensure_tags_lem, mirror_aws_tags_lem}
use mwaa_controller.Samples.Maps.{tag_tools, tag_tools-IsLawful}
use mwaa_controller.Samples.Resources.{prod}

abbrev tagged : Environment
tagged =
    let r = prod none in
    record r {
      spec = record (r.spec) {
        tags = some (("aws:created-by", some "stack") ∷ ("team", none) ∷ []);
      };
    }

tagged-NodupKeys : NodupKeys (elements tagged.spec.tags)
unfolding string_eq
tagged-NodupKeys = (refl, (refl, tt))

prod-NodupKeys : NodupKeys (elements (prod none).spec.tags)
prod-NodupKeys = (refl, tt)

ensure_tags_lem_example : tag_at "team" (ensure_tags tag_tools (prod none)).spec.tags ≡ (
    if is_some (tag_at "team" (prod none).spec.tags)
    then tag_at "team" (prod none).spec.tags
    else lookup "team" (tag_tools.default_tags (prod none)))
ensure_tags_lem_example =
    ensure_tags_lem tag_tools tag_tools-IsLawful (prod none) "team" prod-NodupKeys

mirror_aws_tags_lem_example :
    tag_at "aws:created-by" (mirror_aws_tags (prod none) (some tagged)).spec.tags ≡ (
      if is_aws "aws:created-by" && is_some (tag_at "aws:created-by" tagged.spec.tags)
      then tag_at "aws:created-by" tagged.spec.tags
      else tag_at "aws:created-by" (prod none).spec.tags)
mirror_aws_tags_lem_example =
    mirror_aws_tags_lem (prod none) tagged "aws:created-by" prod-NodupKeys tagged-NodupKeys
