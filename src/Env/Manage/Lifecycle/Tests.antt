-- ===== src/Env/Manage/Lifecycle/Tests.antt =====
-- The results on a create or an update and the read after it, on the sample environment.
use mwaa_controller.Common.{◌≡◌, refl, string_eq, true, none, some, returns, ok}
use mwaa_controller.Api.{Environment}
use mwaa_controller.Env.Status.{arn_of}
use mwaa_controller.Env.TagFields.{mirror_aws_tags}
use mwaa_controller.Env.Read.{observe}
use mwaa_controller.Env.Manage.{read_one, create, update, is_synced}
use mwaa_controller.Env.Manage.Reads.{NotFailed}
use mwaa_controller.Samples.Faults.{faults}
use mwaa_controller.Samples.Maps.{pointers}
use mwaa_controller.Samples.Echo.{echo, echo-Echoes, prod-HasMaps, prod-IsNormal}
use mwaa_controller.Samples.Maps.{pointers-IsLawful}
use mwaa_controller.Samples.Comparators.{comparators, comparators-IsLawful}
use mwaa_controller.Env.Delta.{differences}
use mwaa_controller.Env.Manage.Lifecycle.{create_then_read}
use mwaa_controller.Samples.Cloud.{sample_client, cloud_of, sample_conditions, sample_deltas}
use mwaa_controller.Samples.Resources.{manager, prod, prod_spec, prod-InRange}
use mwaa_controller.Common.{List, [], ◌∷◌}
use mwaa_controller.Ext.Compare.{Difference, nil}
use mwaa_controller.Env.Manage.Lifecycle.{update_then_read, after_update}
use mwaa_controller.Env.Payload.Echoes.{UpdateEchoes, OthersEcho}
use mwaa_controller.Env.Payload.Bounds.{update_input_of}
use mwaa_controller.Env.Write.{update_tags}
use mwaa_controller.Env.Payload.{write_update_network, write_network}
use mwaa_controller.Tags.{sync_tags, tag, untag}
use mwaa_controller.Common.{String}
use mwaa_controller.Ext.Sdk.{SdkEnvironment}

abbrev environment_arn : String
environment_arn = "arn:aws:mwaa:us-west-2:1:environment/prod"

abbrev available : SdkEnvironment
available = echo "AVAILABLE"

available-NotFailed : NotFailed (available)
available-NotFailed h = cc

create_then_read_example :
    (r1 r2 : Environment) × ((create faults manager sample_conditions pointers sample_client
        (some (prod none))
        (cloud_of (ok none))).0
      ≡ returns (some r1, none))
    × (arn_of r1.status ≡ some environment_arn)
    × ((read_one faults manager sample_conditions pointers sample_client
          (some r1)
          (cloud_of (ok (some available)))).0
        ≡ returns
            ((some r2, none), mirror_aws_tags r1 (some (observe pointers manager r1 available))))
    × (is_synced r2 ≡ true)
    × (differences comparators prod_spec r2.spec ≡ [])
create_then_read_example =
    create_then_read faults sample_conditions pointers sample_client manager pointers-IsLawful
      comparators comparators-IsLawful (prod none) (cloud_of (ok none))
      (cloud_of (ok (some available))) "prod" environment_arn available prod-InRange prod-HasMaps
      prod-IsNormal refl refl refl (echo-Echoes "AVAILABLE") refl available-NotFailed

-- The number of workers and the tags differ.
abbrev workers_and_tags : List Difference
workers_and_tags =
    record { path = "Spec.MaxWorkers"; a = nil; b = nil }
    ∷ record { path = "Spec.Tags"; a = nil; b = nil }
    ∷ []

workers_differ : sample_deltas.different_except workers_and_tags "Spec.Tags" ≡ true
unfolding string_eq
workers_differ = refl

tags_are_synced :
    (update_tags faults pointers sample_client manager sample_deltas workers_and_tags
      (prod none)
      (prod (some "AVAILABLE"))
      (cloud_of (ok none))).0
    ≡ returns none
unfolding update_tags sync_tags tag untag string_eq
tags_are_synced = refl

available-UpdateEchoes : UpdateEchoes (update_input_of pointers prod_spec) available
unfolding write_update_network write_network
available-UpdateEchoes = record {
  airflow_configuration_options = refl;
  airflow_version = refl;
  dag_s3_path = refl;
  environment_class = refl;
  execution_role_arn = refl;
  logging_configuration = refl;
  max_webservers = refl;
  max_workers = refl;
  min_webservers = refl;
  min_workers = refl;
  name = refl;
  plugins_s3_object_version = refl;
  plugins_s3_path = refl;
  requirements_s3_object_version = refl;
  requirements_s3_path = refl;
  schedulers = refl;
  source_bucket_arn = refl;
  startup_script_s3_object_version = refl;
  startup_script_s3_path = refl;
  webserver_access_mode = refl;
  weekly_maintenance_window_start = refl;
  network_configuration = refl;
}

available-OthersEcho : OthersEcho pointers prod_spec available
unfolding write_network
available-OthersEcho = record {
  endpoint_management = refl;
  kms_key = refl;
  tags = refl;
  subnet_ids = refl;
}

update_then_read_example :
    (r1 r2 : Environment) × (update faults manager sample_conditions pointers sample_client
        sample_deltas
        (some (prod none))
        (some (prod (some "AVAILABLE")))
        workers_and_tags
        (cloud_of (ok none))
      ≡ (
        returns (some r1, none),
        after_update faults pointers sample_client
            (prod none)
            (update_tags faults pointers sample_client manager sample_deltas workers_and_tags
              (prod none)
              (prod (some "AVAILABLE"))
              (cloud_of (ok none))).1,
      ))
    × (arn_of r1.status ≡ some environment_arn)
    × ((read_one faults manager sample_conditions pointers sample_client
          (some r1)
          (cloud_of (ok (some available)))).0
        ≡ returns
            ((some r2, none), mirror_aws_tags r1 (some (observe pointers manager r1 available))))
    × (is_synced r2 ≡ true)
    × (differences comparators prod_spec r2.spec ≡ [])
update_then_read_example =
    update_then_read faults sample_conditions pointers sample_client manager pointers-IsLawful
      comparators comparators-IsLawful sample_deltas workers_and_tags (prod none)
      (prod (some "AVAILABLE")) (cloud_of (ok none)) (cloud_of (ok (some available))) "prod"
      environment_arn available prod-InRange prod-HasMaps prod-IsNormal refl refl workers_differ
      tags_are_synced refl refl available-UpdateEchoes available-OthersEcho refl available-NotFailed
