-- ===== src/Env/Write/Tests.antt =====
-- The results on `sdkUpdate`, on the sample environment.
use mwaa_controller.Common.{◌≡◌, refl, string_eq, false, none, some, List, [], ◌∷◌, ok}
use mwaa_controller.Ext.Compare.{Difference, nil}
use mwaa_controller.Env.Write.{sdk_update}
use mwaa_controller.Env.Write.Guards.{NoUpdate, sdk_update_tags_only}
use mwaa_controller.Samples.Faults.{faults}
use mwaa_controller.Samples.Maps.{pointers}
use mwaa_controller.Samples.Cloud.{sample_client, cloud_of, sample_deltas}
use mwaa_controller.Samples.Resources.{manager, prod}

-- A delta with nothing but the tags.
abbrev tags_differ : List Difference
tags_differ = record { path = "Spec.Tags"; a = nil; b = nil } ∷ []

nothing_else_differs : sample_deltas.different_except tags_differ "Spec.Tags" ≡ false
unfolding string_eq
nothing_else_differs = refl

sdk_update_tags_only_example :
    NoUpdate faults pointers sample_client manager
      (sdk_update faults pointers sample_client manager sample_deltas tags_differ
        (prod none)
        (prod (some "AVAILABLE"))
        (cloud_of (ok none))).1
sdk_update_tags_only_example =
    sdk_update_tags_only faults pointers sample_client manager sample_deltas tags_differ (prod none)
      (prod (some "AVAILABLE")) (cloud_of (ok none)) nothing_else_differs tt
