-- ===== src/Samples/Resources.antt =====
-- Resources and answers of the service to try the definitions on.
use mwaa_controller.Common.{String, Option, none, some, List, [], ◌∷◌, true}
use mwaa_controller.Common.Int.{pos}
use mwaa_controller.Api.{Environment, EnvironmentSpec, EnvironmentStatus, ObjectMeta, Condition}
use mwaa_controller.Api.{terminal, recoverable, status_true, status_false}
use mwaa_controller.Ext.Sdk.{SdkEnvironment, SdkLastUpdate}
use mwaa_controller.Env.Status.{Manager}
use mwaa_controller.Env.Status.Reports.{UniqueKinds}
use mwaa_controller.Env.Payload.Bounds.{InRange}
use mwaa_controller.Common.{refl, arith}

abbrev pub manager : Manager
manager = record { aws_account_id = "1"; aws_region = "us-west-2" }

abbrev pub prod_spec : EnvironmentSpec
prod_spec = record {
  airflow_configuration_options = some (("core.parallelism", some "8") ∷ []);
  airflow_version = some "2.9.2";
  dag_s3_path = some "dags";
  endpoint_management = none;
  environment_class = some "mw1.small";
  execution_role_arn = some "arn:aws:iam::1:role/airflow";
  execution_role_ref = none;
  kms_key = none;
  kms_key_ref = none;
  logging_configuration = some (record {
    dag_processing_logs = none;
    scheduler_logs = none;
    task_logs = some (record { enabled = some true; log_level = some "INFO" });
    webserver_logs = none;
    worker_logs = none;
  });
  max_webservers = none;
  max_workers = some (pos 10);
  min_webservers = none;
  min_workers = some (pos 1);
  name = some "prod";
  network_configuration = some (record {
    security_group_ids = some (some "sg-1" ∷ []);
    security_group_refs = [];
    subnet_ids = some (some "subnet-1" ∷ some "subnet-2" ∷ []);
    subnet_refs = [];
  });
  plugins_s3_object_version = none;
  plugins_s3_path = none;
  requirements_s3_object_version = none;
  requirements_s3_path = none;
  schedulers = none;
  source_bucket_arn = some "arn:aws:s3:::dags";
  source_bucket_ref = none;
  startup_script_s3_object_version = none;
  startup_script_s3_path = none;
  tags = some (("team", some "data") ∷ []);
  webserver_access_mode = none;
  weekly_maintenance_window_start = none;
}

-- A condition of each sort that the manager looks for.
abbrev pub old_conditions : List Condition
old_conditions =
    record { kind = terminal; status = status_true; message = some "old"; reason = none }
    ∷ record { kind = recoverable; status = status_false; message = none; reason = none }
    ∷ []

abbrev pub prod_status : Option String → EnvironmentStatus
prod_status state = record {
  ack_resource_metadata = some (record {
    arn = some "arn:aws:mwaa:us-west-2:1:environment/prod";
    owner_account_id = none;
    region = none;
  });
  conditions = some old_conditions;
  created_at = none;
  last_update = none;
  status = state;
  webserver_url = none;
}

abbrev pub prod_meta : ObjectMeta
prod_meta = record {
  namespace = "default";
  finalizers = [];
  annotations = none;
  deletion_timestamp = none;
}

abbrev pub prod : Option String → Environment
prod state = record { meta = prod_meta; spec = prod_spec; status = prod_status state }

-- What the service describes, by its state and the last update.
abbrev pub described : String → Option SdkLastUpdate → SdkEnvironment
described state last_update = record {
  airflow_configuration_options = some (("core.parallelism", "4") ∷ []);
  airflow_version = some "2.9.2";
  arn = some "arn:aws:mwaa:us-west-2:1:environment/prod";
  created_at = some 1;
  dag_s3_path = some "dags";
  endpoint_management = "SERVICE";
  environment_class = some "mw1.small";
  execution_role_arn = some "arn:aws:iam::1:role/airflow";
  kms_key = none;
  last_update = last_update;
  logging_configuration = none;
  max_webservers = some (pos 2);
  max_workers = some (pos 10);
  min_webservers = some (pos 2);
  min_workers = some (pos 1);
  name = some "prod";
  network_configuration = none;
  plugins_s3_object_version = none;
  plugins_s3_path = none;
  requirements_s3_object_version = none;
  requirements_s3_path = none;
  schedulers = some (pos 2);
  source_bucket_arn = some "arn:aws:s3:::dags";
  startup_script_s3_object_version = none;
  startup_script_s3_path = none;
  status = state;
  tags = some (("aws:created-by", "stack") ∷ ("team", "data") ∷ []);
  webserver_access_mode = "PRIVATE_ONLY";
  webserver_url = none;
  weekly_maintenance_window_start = none;
}

abbrev pub failed_update : SdkLastUpdate
failed_update = record {
  created_at = none;
  error = some (record { error_code = some "INCORRECT_CONFIGURATION"; error_message = none });
  source = none;
  status = "FAILED";
  worker_replacement_strategy = "";
}

pub prod-UniqueKinds : UniqueKinds old_conditions
prod-UniqueKinds = record {
  one_terminal = (λ _. refl, (λ _. refl, tt));
  one_recoverable = (λ h. cc, (λ _. refl, tt));
  one_synced = (λ _. refl, (λ _. refl, tt));
}

pub prod-InRange : InRange prod_spec
prod-InRange = record {
  max_webservers = tt;
  max_workers = omega arith;
  min_webservers = tt;
  min_workers = omega arith;
  schedulers = tt;
}
