-- ===== src/Samples/Tagging.antt =====
-- A service that keeps the tags of one environment.
use mwaa_controller.Common.{String, ◌≡◌, refl, none, List, [], ◌∷◌, ◌++◌, arith}
use mwaa_controller.Common.{contains, string_eq, if◌then◌else◌, ok}
use mwaa_controller.Common.Dict.{Dict, lookup, has}
use mwaa_controller.Ext.Sdk.{Client}
use mwaa_controller.Tags.Refines.{TagsClientIsLawful}
use mwaa_controller.Env.Write.{tags_client}
use mwaa_controller.Samples.Faults.{faults}
use mwaa_controller.Samples.Maps.{pointers}
use mwaa_controller.Samples.Resources.{manager}

unfoldable pub without : List String → Dict String → Dict String
without ks [] = []
without ks ((k, v) ∷ d) = let rest = without ks d in if contains ks k then rest else (k, v) ∷ rest

pub lookup-append :
    (k : String) (m d : Dict String)
    → lookup k (m ++ d) ≡ (if has k m then lookup k m else lookup k d)
lookup-append k [] d = refl
lookup-append k ((j, v) ∷ m) d = ground (arith, lookup-append k m d)

pub lookup-without :
    (k : String) (ks : List String) (d : Dict String)
    → lookup k (without ks d) ≡ (if contains ks k then none else lookup k d)
unfolding without
lookup-without k ks [] = ground arith
lookup-without k ks ((j, v) ∷ d) = ground (arith, lookup-without k ks d)

-- The world is the tags; every call succeeds.
abbrev pub tagging_client : Client faults
tagging_client = record {
  World = Dict String;
  get_environment = λ name world. (ok none, world);
  create_environment = λ input world. (ok none, world);
  update_environment = λ input world. (ok none, world);
  delete_environment = λ name world. (ok tt, world);
  tag_resource = λ arn m world. (ok tt, m ++ world);
  untag_resource = λ arn ks world. (ok tt, without ks world);
}

abbrev pub tagging_client-IsLawful :
    TagsClientIsLawful (tags_client faults pointers tagging_client manager)
tagging_client-IsLawful = record {
  tag_of = λ s arn k. lookup k s.world;
  tag_of-tag = λ arn m s k h. lookup-append k m s.world;
  tag_of-untag = λ arn ks s k h. lookup-without k ks s.world;
  tag_of-record = λ op_type op_id e s arn k. refl;
}
