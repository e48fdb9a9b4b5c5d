-- ===== src/Env/TagFields/Lookup.antt =====
-- The tag operations, read key by key.
use mwaa_controller.Common.{String, ◌≡◌, refl, ◌∙◌, ap, ◌&&◌, Option, some, List, [], ◌∷◌}
use mwaa_controller.Common.{
  inl, inr, Bool-cases, ==_iff, arith, elements, is_some, if◌then◌else◌, ◌==◌, string_eq,
}
use mwaa_controller.Common.Dict.{Dict, lookup, has, insert, lookup-insert, insert-NodupKeys}
use mwaa_controller.Common.Dict.{NodupKeys}
use mwaa_controller.Api.{Environment}
use mwaa_controller.Ext.Runtime.{TagTools, TagToolsIsLawful, text_of}
use mwaa_controller.Env.TagFields.{to_ack_tags, convert_to_ordered_ack_tags, of_ack_tags}
use mwaa_controller.Env.TagFields.{from_ack_tags, is_aws}
use mwaa_controller.Env.TagFields.{sync_aws_tags, ensure_tags, mirror_aws_tags}
use mathlib.Core.Option
use mathlib.Core.Path.{ap₂}

-- The value of a key, with "" for a nil value and `none` for a missing key.
abbrev pub tag_at : String → Option (Dict (Option String)) → Option String
tag_at k tags = Option.map text_of (lookup k (elements tags))

module _ (k : String) where
  lookup-to_ack_tags :
      (d : Dict (Option String)) (acc : Dict String)
      → NodupKeys d
      → lookup k (to_ack_tags d acc)
        ≡ (if has k d then Option.map text_of (lookup k d) else lookup k acc)
  unfolding to_ack_tags
  lookup-to_ack_tags [] acc u = refl
  lookup-to_ack_tags ((j, v) ∷ d) acc (fresh, u) =
      ground (
        arith,
        lookup-to_ack_tags d (insert j (text_of v) acc) u,
        lookup-insert k j (text_of v) acc,
      )

  lookup-of_ack_tags :
      (d : Dict String) (acc : Dict (Option String))
      → NodupKeys d
      → lookup k (of_ack_tags d acc)
        ≡ (if has k d then Option.map some (lookup k d) else lookup k acc)
  unfolding of_ack_tags
  lookup-of_ack_tags [] acc u = refl
  lookup-of_ack_tags ((j, v) ∷ d) acc (fresh, u) =
      ground (arith, lookup-of_ack_tags d (insert j (some v) acc) u, lookup-insert k j (some v) acc)

to_ack_tags-NodupKeys :
    (d : Dict (Option String)) (acc : Dict String) → NodupKeys acc → NodupKeys (to_ack_tags d acc)
unfolding to_ack_tags
to_ack_tags-NodupKeys [] acc u = u
to_ack_tags-NodupKeys ((j, v) ∷ d) acc u =
    to_ack_tags-NodupKeys d _ (insert-NodupKeys j (text_of v) acc u)

of_ack_tags-NodupKeys :
    (d : Dict String) (acc : Dict (Option String)) → NodupKeys acc → NodupKeys (of_ack_tags d acc)
unfolding of_ack_tags
of_ack_tags-NodupKeys [] acc u = u
of_ack_tags-NodupKeys ((j, v) ∷ d) acc u =
    of_ack_tags-NodupKeys d _ (insert-NodupKeys j (some v) acc u)

pub convert-NodupKeys :
    (tags : Option (Dict (Option String))) → NodupKeys (convert_to_ordered_ack_tags tags).0
unfolding convert_to_ordered_ack_tags
convert-NodupKeys tags = to_ack_tags-NodupKeys (elements tags) [] tt

pub lookup-convert :
    (k : String) (tags : Option (Dict (Option String)))
    → NodupKeys (elements tags)
    → lookup k (convert_to_ordered_ack_tags tags).0 ≡ tag_at k tags
unfolding convert_to_ordered_ack_tags
lookup-convert k tags u = ground (arith, lookup-to_ack_tags k (elements tags) [] u)

tag_at-from_ack_tags :
    (k : String) (d : Dict String) (order : List String)
    → NodupKeys d
    → tag_at k (from_ack_tags d order) ≡ lookup k d
unfolding from_ack_tags
tag_at-from_ack_tags k d order u = ground (arith, lookup-of_ack_tags k d [] u)

lookup-sync_aws_tags :
    (k : String) (a b : Dict String)
    → NodupKeys b
    → lookup k (sync_aws_tags a b) ≡ (if is_aws k && has k b then lookup k b else lookup k a)
unfolding sync_aws_tags
lookup-sync_aws_tags k a [] u = ground arith
lookup-sync_aws_tags k a ((j, v) ∷ b) (fresh, u) = elim (Bool-cases (k == j)) [
  | inl same ↦ ground (
    arith,
    ap is_aws ((==_iff k j).0 same),
    lookup-sync_aws_tags k a b u,
    lookup-sync_aws_tags k (insert j v a) b u,
    lookup-insert k j v a,
  )
  | inr other ↦ ground (
    arith,
    lookup-sync_aws_tags k a b u,
    lookup-sync_aws_tags k (insert j v a) b u,
    lookup-insert k j v a,
  )
]

sync_aws_tags-NodupKeys : (a b : Dict String) → NodupKeys a → NodupKeys (sync_aws_tags a b)
unfolding sync_aws_tags
sync_aws_tags-NodupKeys a [] u = u
sync_aws_tags-NodupKeys a ((j, v) ∷ b) u =
    sync_aws_tags-NodupKeys (if is_aws j then insert j v a else a) b
      (ground (arith, insert-NodupKeys j v a u))

-- After `EnsureTags` a resource has its own tags, and the controller's default tags under the keys
-- that it has not itself, where the tags are a map and `Merge` does as documented.
pub ensure_tags_lem :
    (T : TagTools)
    → TagToolsIsLawful T
    → (ko : Environment) (k : String) → NodupKeys (elements ko.spec.tags)
    → tag_at k (ensure_tags T ko).spec.tags ≡ (
        if is_some (tag_at k ko.spec.tags)
        then tag_at k ko.spec.tags
        else lookup k (T.default_tags ko))
unfolding ensure_tags
ensure_tags_lem T L ko k u =
    let d = (convert_to_ordered_ack_tags ko.spec.tags).0 in
    tag_at-from_ack_tags k (T.merge d (T.default_tags ko)) []
      (L.merge-NodupKeys d (T.default_tags ko) (convert-NodupKeys ko.spec.tags))
    ∙ L.lookup-merge k d (T.default_tags ko)
    ∙ ap (λ v. if is_some v then v else lookup k (T.default_tags ko))
        (lookup-convert k ko.spec.tags u)

-- After `mirrorAWSTags` the first resource has the second's value of each of its "aws:" tags, and
-- every other tag of the first is kept, where nil is read as an empty value and the tags of both
-- are maps.
pub mirror_aws_tags_lem :
    (a b : Environment) (k : String)
    → NodupKeys (elements a.spec.tags)
    → NodupKeys (elements b.spec.tags)
    → tag_at k (mirror_aws_tags a (some b)).spec.tags ≡ (
        if is_aws k && is_some (tag_at k b.spec.tags)
        then tag_at k b.spec.tags
        else tag_at k a.spec.tags)
unfolding mirror_aws_tags
mirror_aws_tags_lem a b k u w =
    let d = (convert_to_ordered_ack_tags a.spec.tags).0 in
    let e = (convert_to_ordered_ack_tags b.spec.tags).0 in
    tag_at-from_ack_tags k (sync_aws_tags d e) []
      (sync_aws_tags-NodupKeys d e (convert-NodupKeys a.spec.tags))
    ∙ lookup-sync_aws_tags k d e (convert-NodupKeys b.spec.tags)
    ∙ ap₂ (λ v w. if is_aws k && is_some w then w else v) (lookup-convert k a.spec.tags u)
        (lookup-convert k b.spec.tags w)
