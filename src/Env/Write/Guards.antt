-- ===== src/Env/Write/Guards.antt =====
-- Which calls `sdkUpdate` of sdk.go makes, and that it returns.
use mwaa_controller.Common.{String, ◌≡◌, ◌≢◌, refl, false, Option, none, some, List, []}
use mwaa_controller.Common.{◌∷◌, elements, All, All-append, Outcome, returns, panics, inl, inr}
use mwaa_controller.Common.{Bool-cases, Option-cases, string_eq, ==_ne}
use mwaa_controller.Common.Dict.{Dict}
use mwaa_controller.Api.{Environment}
use mwaa_controller.Ext.Errors.{Errors}
use mwaa_controller.Ext.Sdk.{Client}
use mwaa_controller.Ext.Compare.{Deltas}
use mwaa_controller.Ext.Runtime.{Pointers}
use mwaa_controller.Tags.{sync_tags, collect_add, collect_delete, tag, untag, unless_failed}
use mwaa_controller.Env.Calls.{Cloud}
use mwaa_controller.Env.Status.{Manager, arn_of, Answer}
use mwaa_controller.Env.Write.{sdk_update, update_tags, tags_client, not_available}
use mwaa_controller.Env.Write.{after_tags, unless_unavailable}

tag_is_not_update : ◌≢◌ {A = String} "TagResource" "UpdateEnvironment"
unfolding string_eq
tag_is_not_update = ==_ne "TagResource" "UpdateEnvironment" refl

untag_is_not_update : ◌≢◌ {A = String} "UntagResource" "UpdateEnvironment"
unfolding string_eq
untag_is_not_update = ==_ne "UntagResource" "UpdateEnvironment" refl

module _ (E : Errors) (P : Pointers) (C : Client E) (rm : Manager) where
  -- UpdateEnvironment is not among the calls.
  abbrev pub NoUpdate : Cloud E C → Type 0
  NoUpdate cloud = All (λ c. c.op_id ≢ "UpdateEnvironment") cloud.recorded

  tag-NoUpdate :
      (arn : String) (to_add : Dict String) (cloud : Cloud E C)
      → NoUpdate cloud
      → NoUpdate (tag (tags_client E P C rm) arn to_add cloud).1
  unfolding tag
  tag-NoUpdate arn [] cloud h = h
  tag-NoUpdate arn (e ∷ to_add) cloud h = All-append _ cloud.recorded _ h (tag_is_not_update, tt)

  untag-NoUpdate :
      (arn : String) (to_delete : List String) (cloud : Cloud E C)
      → NoUpdate cloud
      → NoUpdate (untag (tags_client E P C rm) arn to_delete cloud).1
  unfolding untag
  untag-NoUpdate arn [] cloud h = h
  untag-NoUpdate arn (k ∷ to_delete) cloud h =
      All-append _ cloud.recorded _ h (untag_is_not_update, tt)

  unless_failed-NoUpdate :
      (first : Option E.Error × Cloud E C) (next : Cloud E C → Option E.Error × Cloud E C)
      → NoUpdate first.1
      → ((cloud : Cloud E C) → NoUpdate cloud → NoUpdate (next cloud).1)
      → NoUpdate (unless_failed (tags_client E P C rm) "" first next).1
  unless_failed-NoUpdate (none, cloud) next h f = f cloud h
  unless_failed-NoUpdate (some e, cloud) next h f = h

  sync_tags-NoUpdate :
      (arn : String) (desired existing : Dict String) (cloud : Cloud E C)
      → NoUpdate cloud
      → NoUpdate (sync_tags (tags_client E P C rm) arn desired existing cloud).1
  unfolding sync_tags
  sync_tags-NoUpdate arn desired existing cloud h =
      let T = tags_client E P C rm in
      let to_add = collect_add existing desired [] in
      let to_delete = collect_delete desired existing [] in
      unless_failed-NoUpdate (tag T arn to_add cloud) (untag T arn to_delete)
        (tag-NoUpdate arn to_add cloud h) (untag-NoUpdate arn to_delete)

  -- An AVAILABLE environment may be updated.
  pub available_may_update :
      (latest : Environment)
      → latest.status.status ≡ some "AVAILABLE"
      → not_available E P C rm latest.status.status ≡ none
  unfolding not_available string_eq
  available_may_update latest h = rw h refl

  module _ (D : Deltas) (delta : D.Delta) (desired latest : Environment) (cloud : Cloud E C) where
    update_tags-NoUpdate :
        NoUpdate cloud → NoUpdate (update_tags E P C rm D delta desired latest cloud).1
    unfolding update_tags
    update_tags-NoUpdate h = elim (Bool-cases (D.different_at delta "Spec.Tags")) [
      | inr same ↦ rw same h
      | inl differ ↦ elim (Option-cases (arn_of latest.status)) [
        | inl unknown ↦ rw (differ, unknown) h
        | inr (arn, known) ↦
            rw (differ, known)
              (sync_tags-NoUpdate arn (P.to_string_map (elements desired.spec.tags))
                (P.to_string_map (elements latest.spec.tags)) cloud h)
      ]
    ]

    after_tags-NoUpdate :
        (tagged : Outcome (Option E.Error) × Cloud E C)
        → D.different_except delta "Spec.Tags" ≡ false
        → NoUpdate tagged.1
        → NoUpdate (after_tags E P C rm D delta desired tagged).1
    after_tags-NoUpdate (panics m, cloud) only h = h
    after_tags-NoUpdate (returns (some e), cloud) only h = h
    after_tags-NoUpdate (returns none, cloud) only h = rw only h

    unless_unavailable-NoUpdate :
        (e : Option E.Error) (rest : Outcome (Answer E) × Cloud E C)
        → NoUpdate cloud
        → NoUpdate rest.1
        → NoUpdate (unless_unavailable E P C rm D e rest cloud).1
    unless_unavailable-NoUpdate (some e) rest h k = h
    unless_unavailable-NoUpdate none rest h k = k

    -- If nothing but the tags differs, `sdkUpdate` never calls UpdateEnvironment, whatever the
    -- service answers and whatever the state of the environment is: if it is not among the
    -- recorded calls before, it is not afterwards.
    pub sdk_update_tags_only :
        D.different_except delta "Spec.Tags" ≡ false
        → NoUpdate cloud
        → NoUpdate (sdk_update E P C rm D delta desired latest cloud).1
    unfolding sdk_update
    sdk_update_tags_only only h =
        let tagged = update_tags E P C rm D delta desired latest cloud in
        unless_unavailable-NoUpdate (not_available E P C rm latest.status.status)
          (after_tags E P C rm D delta desired tagged) h
          (after_tags-NoUpdate tagged only (update_tags-NoUpdate h))

    -- The tags are compared without a panic where the ARN is known.
    update_tags_total :
        (arn : String)
        → arn_of latest.status ≡ some arn
        → (e : Option E.Error) × ((update_tags E P C rm D delta desired latest cloud).0 ≡ returns e)
    unfolding update_tags
    update_tags_total arn known = elim (Bool-cases (D.different_at delta "Spec.Tags")) [
      | inr same ↦ rw same (none, refl)
      | inl differ ↦ rw (differ, known) (_, refl)
    ]

    after_tags_total :
        (e : Option E.Error) (tagged : Outcome (Option E.Error) × Cloud E C)
        → tagged.0 ≡ returns e
        → (a : Answer E) × ((after_tags E P C rm D delta desired tagged).0 ≡ returns a)
    after_tags_total e (panics m, cloud) h = cc
    after_tags_total e (returns (some x), cloud) h = (_, refl)
    after_tags_total e (returns none, cloud) h =
        elim (Bool-cases (D.different_except delta "Spec.Tags")) [
          | inr only ↦ rw only (_, refl)
          | inl more ↦ rw more (_, refl)
        ]

    -- Where the ARN of the environment is known, `sdkUpdate` returns: it does not panic.
    pub sdk_update_total :
        (arn : String)
        → arn_of latest.status ≡ some arn
        → (a : Answer E) × ((sdk_update E P C rm D delta desired latest cloud).0 ≡ returns a)
    unfolding sdk_update
    sdk_update_total arn known =
        let tagged = update_tags E P C rm D delta desired latest cloud in
        let (e, returned) = update_tags_total arn known in
        elim (Option-cases (not_available E P C rm latest.status.status)) [
          | inr (x, refused) ↦ rw refused (_, refl)
          | inl available ↦ let (a, h) = after_tags_total e tagged returned in rw available (a, h)
        ]
