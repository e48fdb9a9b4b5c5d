-- ===== src/Tags/Tests.antt =====
-- `SyncTags` run over a service that keeps the tags of one resource, and a service that refuses.
use mwaa_controller.Common.{String, ◌≡◌, refl, none, some, List, [], ◌∷◌, ◌++◌}
use mwaa_controller.Common.{string_eq, ok}
use mwaa_controller.Common.Dict.{Dict, lookup}
use mwaa_controller.Samples.Tagging.{without, lookup-append, lookup-without}
use mwaa_controller.Tags.{TagsClient, sync_tags}
use mwaa_controller.Tags.Refines.{TagsClientIsLawful, sync_tags-refines, sync_tags_noop}

-- The state is the tags and the operations recorded.
abbrev service : TagsClient String
service = record {
  State = Dict String × List String;
  tag_resource = λ arn m (d, log). (ok tt, (m ++ d, log));
  untag_resource = λ arn ks (d, log). (ok tt, (without ks d, log));
  record_api_call = λ op_type op_id e (d, log). (d, op_id ∷ log);
}

abbrev service-IsLawful : TagsClientIsLawful service
service-IsLawful = record {
  tag_of = λ s arn k. lookup k s.0;
  tag_of-tag = λ arn m s k h. lookup-append k m s.0;
  tag_of-untag = λ arn ks s k h. lookup-without k ks s.0;
  tag_of-record = λ op_type op_id e s arn k. refl;
}

abbrev desired : Dict String
desired = ("team", "data") ∷ ("env", "prod") ∷ []

abbrev existing : Dict String
existing = ("env", "dev") ∷ ("old", "1") ∷ ("team", "data") ∷ []

run : sync_tags service "arn" desired existing (existing, []) ≡ (
  none,
  (("env", "prod") ∷ ("env", "dev") ∷ ("team", "data") ∷ [], "UntagResource" ∷ "TagResource" ∷ []),
)
unfolding sync_tags without string_eq
run = refl

sync_tags-refines_example :
    lookup "env" (sync_tags service "arn" desired existing (existing, [])).1.0 ≡ some "prod"
unfolding string_eq sync_tags without
sync_tags-refines_example =
    sync_tags-refines service "arn" service-IsLawful desired existing (existing, [])
      (refl, (refl, tt)) (λ k. refl) refl "env"

sync_tags_noop_example :
    sync_tags service "arn" desired desired (existing, []) ≡ (none, (existing, []))
unfolding string_eq
sync_tags_noop_example =
    sync_tags_noop service "arn" desired desired (existing, []) (refl, (refl, tt)) (λ k. refl)
