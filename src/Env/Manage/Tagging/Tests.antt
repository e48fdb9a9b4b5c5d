-- ===== src/Env/Manage/Tagging/Tests.antt =====
-- The result on an update of the tags, on the sample environment.
use mathlib.Core.Option
use mwaa_controller.Common.{String, ◌≡◌, refl, sym, none, some, List, [], ◌∷◌, returns, elements}
use mwaa_controller.Common.{string_eq, true, false}
use mwaa_controller.Common.Dict.{lookup}
use mwaa_controller.Api.{Environment}
use mwaa_controller.Ext.Compare.{Difference, nil}
use mwaa_controller.Ext.Runtime.{text_of}
use mwaa_controller.Tags.{sync_tags, tag, untag}
use mwaa_controller.Env.Calls.{Cloud}
use mwaa_controller.Env.Manage.{update}
use mwaa_controller.Env.Manage.Tagging.{update_syncs_tags}
use mwaa_controller.Samples.Faults.{faults}
use mwaa_controller.Samples.Maps.{pointers, pointers-IsLawful}
use mwaa_controller.Samples.Cloud.{sample_conditions, sample_deltas}
use mwaa_controller.Samples.Tagging.{tagging_client, tagging_client-IsLawful, without}
use mwaa_controller.Samples.Resources.{manager, prod, prod_spec}

abbrev tags_differ : List Difference
tags_differ = record { path = "Spec.Tags"; a = nil; b = nil } ∷ []

-- The latest resource has the tag "env" in place of the desired "team".
abbrev latest : Environment
latest =
    let r = prod (some "AVAILABLE") in
    record r { spec = record prod_spec { tags = some (("env", some "dev") ∷ []) } }

abbrev before : Cloud faults tagging_client
before = record { world = ("env", "dev") ∷ []; recorded = [] }

only_tags : sample_deltas.different_except tags_differ "Spec.Tags" ≡ false
unfolding string_eq
only_tags = refl

tags_do_differ : sample_deltas.different_at tags_differ "Spec.Tags" ≡ true
unfolding string_eq
tags_do_differ = refl

update_syncs_tags_example :
    let (answer, cloud') =
      update faults manager sample_conditions pointers tagging_client sample_deltas
        (some (prod none))
        (some latest)
        tags_differ
        before in
    (r1 : Environment) × (answer ≡ returns (some r1, none))
    × (r1.spec ≡ prod_spec)
    × ((k : String)
        → lookup k cloud'.world ≡ Option.map text_of (lookup k (elements prod_spec.tags)))
unfolding sync_tags tag untag without string_eq
update_syncs_tags_example =
    update_syncs_tags faults sample_conditions pointers tagging_client manager sample_deltas
      tags_differ (prod none) latest before "arn:aws:mwaa:us-west-2:1:environment/prod"
      pointers-IsLawful tagging_client-IsLawful refl refl tags_do_differ only_tags (refl, tt)
      (λ k. sym (pointers-IsLawful.lookup-to_string_map k (elements latest.spec.tags))) refl
