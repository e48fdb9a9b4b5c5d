-- ===== src/Tags/Refines.antt =====
-- What `SyncTags` does to the tags of the resource.
use mwaa_controller.Common.{String, ◌≡◌, refl, ◌∙◌, false, Option, none, some}
use mwaa_controller.Common.{List, [], ◌∷◌, ◌≢◌, arith, string_eq, contains, if◌then◌else◌}
use mwaa_controller.Common.{Result, ok, err}
use mwaa_controller.Common.Dict.{Dict, lookup, has, NodupKeys, SameEntries}
use mwaa_controller.Tags.{TagsClient, tag, untag, sync_tags, collect_add, collect_delete, error_of}
use mwaa_controller.Tags.Plan.{lookup-collect_add, contains-collect_delete}

-- The documented behaviour of the two calls: TagResource sets the given tags of the resource and
-- UntagResource removes the given keys, no other tag changes, and recording a call changes none.
pub record TagsClientIsLawful {X : Type 0} (C : TagsClient X) : Type 0 where
  pub tag_of : C.State → String → String → Option String
  pub tag_of-tag :
      (arn : String) (m : Dict String) (s : C.State) (k : String)
      → (C.tag_resource arn m s).0 ≡ ok tt
      → tag_of (C.tag_resource arn m s).1 arn k ≡ (if has k m then lookup k m else tag_of s arn k)
  pub tag_of-untag :
      (arn : String) (ks : List String) (s : C.State) (k : String)
      → (C.untag_resource arn ks s).0 ≡ ok tt
      → tag_of (C.untag_resource arn ks s).1 arn k
        ≡ (if contains ks k then none else tag_of s arn k)
  pub tag_of-record :
      (op_type op_id : String) (e : Option X) (s : C.State) (arn k : String)
      → tag_of (C.record_api_call op_type op_id e s) arn k ≡ tag_of s arn k

error_of-eq-none : {X : Type 0} (r : Result X (Unit {0})) → error_of r ≡ none → r ≡ ok tt
error_of-eq-none (ok tt) h = refl
error_of-eq-none (err e) h = cc

eq-nil_of_lookup : (d : Dict String) → ((k : String) → lookup k d ≡ none) → d ≡ []
eq-nil_of_lookup [] h = refl
eq-nil_of_lookup ((k, v) ∷ d) h = ground (arith, h k)

eq-nil_of_contains : (ks : List String) → ((k : String) → contains ks k ≡ false) → ks ≡ []
eq-nil_of_contains [] h = refl
eq-nil_of_contains (k ∷ ks) h = ground (arith, h k)

module _ {X : Type 0} (C : TagsClient X) (arn : String) where
  module _ (L : TagsClientIsLawful C) (k : String) where
    tag_of-tag_step :
        (m : Dict String) (s : C.State)
        → (tag C arn m s).0 ≡ none
        → L.tag_of (tag C arn m s).1 arn k ≡ (if has k m then lookup k m else L.tag_of s arn k)
    unfolding tag
    tag_of-tag_step [] s h = refl
    tag_of-tag_step (e ∷ m) s h =
        L.tag_of-record _ _ _ _ arn k ∙ L.tag_of-tag arn (e ∷ m) s k (error_of-eq-none _ h)

    tag_of-untag_step :
        (ks : List String) (s : C.State)
        → (untag C arn ks s).0 ≡ none
        → L.tag_of (untag C arn ks s).1 arn k ≡ (if contains ks k then none else L.tag_of s arn k)
    unfolding untag
    tag_of-untag_step [] s h = refl
    tag_of-untag_step (j ∷ ks) s h =
        L.tag_of-record _ _ _ _ arn k ∙ L.tag_of-untag arn (j ∷ ks) s k (error_of-eq-none _ h)

  -- If the existing tags are those that the service has, the desired tags are a map (no key
  -- twice), the tag service does as documented, and `SyncTags` returns no error, then afterwards
  -- the service has exactly the desired tags on the resource.
  pub sync_tags-refines :
      (L : TagsClientIsLawful C) (desired existing : Dict String) (s : C.State)
      → NodupKeys desired
      → ((k : String) → lookup k existing ≡ L.tag_of s arn k)
      → (sync_tags C arn desired existing s).0 ≡ none
      → (k : String) → L.tag_of (sync_tags C arn desired existing s).1 arn k ≡ lookup k desired
  unfolding sync_tags
  sync_tags-refines L desired existing s u known done k =
      let add = collect_add existing desired [] in
      let del = collect_delete desired existing [] in
      ground (
        arith,
        known k,
        lookup-collect_add existing k desired u,
        contains-collect_delete desired k existing,
        tag_of-tag_step L k add s,
        tag_of-untag_step L k del (tag C arn add s).1,
      )

  -- With the desired tags in place already, whatever the order of the two maps, `SyncTags` makes
  -- no call and records nothing.
  pub sync_tags_noop :
      (desired existing : Dict String) (s : C.State)
      → NodupKeys desired
      → SameEntries desired existing
      → sync_tags C arn desired existing s ≡ (none, s)
  unfolding sync_tags
  sync_tags_noop desired existing s u same = rw (
    eq-nil_of_lookup (collect_add existing desired [])
        (λ k. lookup-collect_add existing k desired u ∙ ground (arith, same k)),
    eq-nil_of_contains (collect_delete desired existing [])
        (λ k. contains-collect_delete desired k existing ∙ ground (arith, same k)),
  )

  -- If there are tags to set and TagResource fails, its error is returned, the call is recorded
  -- with it, and UntagResource is not called.
  pub sync_tags_tag_failed :
      (desired existing : Dict String) (s : C.State) (e : X)
      → collect_add existing desired [] ≢ []
      → (C.tag_resource arn (collect_add existing desired []) s).0 ≡ err e
      → sync_tags C arn desired existing s ≡ (
        some e,
        C.record_api_call "UPDATE" "TagResource"
            (some e)
            (C.tag_resource arn (collect_add existing desired []) s).1,
      )
  unfolding sync_tags
  sync_tags_tag_failed desired existing s e called failed = ground arith
