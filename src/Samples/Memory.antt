-- ===== src/Samples/Memory.antt =====
-- The sample environment, laid out in a memory. What the structs of other repositories stand for is
-- taken to be plain values.
use mwaa_controller.Common.{
  String, if◌then◌else◌, ◌==◌, ◌-◌, nat_eq, ℕ, true, Option, none, some, List, [], ◌∷◌,
}
use mwaa_controller.Common.Int.{pos}
use mwaa_controller.Api.{
  Environment, ResourceRef, ResourceMetadata, Condition, Time, ObjectMeta, terminal, recoverable,
  status_true, status_false,
}
use mwaa_controller.DeepCopy.Heap.{Foreign, Heap, Cell, SpecStruct, StatusStruct, pure}
use mwaa_controller.DeepCopy.Boxes.{stamp_box}
use mwaa_controller.DeepCopy.Into.{Copies, copy_ptr}
use mwaa_controller.DeepCopy.Means.{Meanings, Plain}
use mwaa_controller.DeepCopy.Pointers.{plain, behind}
use mwaa_controller.DeepCopy.Nested.{CopiesAreLawful}
use mwaa_controller.Samples.Resources.{prod_meta, prod_spec}

abbrev pub plain_structs : Foreign
plain_structs = record {
  Wrapper = ResourceRef;
  Metadata = ResourceMetadata;
  Condition = Condition;
  Stamp = Time;
  ObjectMeta = ObjectMeta;
  ListMeta = String;
}

abbrev pub plain_meanings : Meanings plain_structs
plain_meanings = record {
  wrapper = Plain;
  metadata = Plain;
  condition = Plain;
  stamp = Plain;
  object_meta = Plain;
  ListMeta = String;
  list_meta = Plain;
}

abbrev pub plain_copies : Copies plain_structs
plain_copies = record {
  copy_wrapper = pure;
  copy_metadata = pure;
  copy_condition = pure;
  deep_copy_stamp = copy_ptr stamp_box pure;
  copy_object_meta = pure;
  copy_list_meta = pure;
}

pub plain_copies-CopiesAreLawful : CopiesAreLawful plain_meanings plain_copies
plain_copies-CopiesAreLawful = record {
  wrapper = plain;
  metadata = plain;
  condition = plain;
  stamp = behind stamp_box plain;
  object_meta = plain;
  list_meta = plain;
}

abbrev pub first_condition : Condition
first_condition = record {
  kind = terminal;
  status = status_true;
  message = some "old";
  reason = none;
}

abbrev pub second_condition : Condition
second_condition = record {
  kind = recoverable;
  status = status_false;
  message = none;
  reason = none;
}

abbrev pub prod_struct : SpecStruct
prod_struct = record {
  airflow_configuration_options = some 1;
  airflow_version = some 2;
  dag_s3_path = some 3;
  endpoint_management = none;
  environment_class = some 4;
  execution_role_arn = some 5;
  execution_role_ref = none;
  kms_key = none;
  kms_key_ref = none;
  logging_configuration = some 9;
  max_webservers = none;
  max_workers = some 10;
  min_webservers = none;
  min_workers = some 11;
  name = some 12;
  network_configuration = some 18;
  plugins_s3_object_version = none;
  plugins_s3_path = none;
  requirements_s3_object_version = none;
  requirements_s3_path = none;
  schedulers = none;
  source_bucket_arn = some 19;
  source_bucket_ref = none;
  startup_script_s3_object_version = none;
  startup_script_s3_path = none;
  tags = some 21;
  webserver_access_mode = none;
  weekly_maintenance_window_start = none;
}

abbrev pub prod_status_struct : StatusStruct
prod_status_struct = record {
  ack_resource_metadata = none;
  conditions = some 25;
  created_at = none;
  last_update = none;
  status = some 22;
  webserver_url = none;
}

abbrev pub cells : List (Cell plain_structs)
cells =
    Cell.text "8"
    ∷ Cell.entries (("core.parallelism", some 0) ∷ [])
    ∷ Cell.text "2.9.2"
    ∷ Cell.text "dags"
    ∷ Cell.text "mw1.small"
    ∷ Cell.text "arn:aws:iam::1:role/airflow"
    ∷ Cell.flag true
    ∷ Cell.text "INFO"
    ∷ Cell.module_logs (record { enabled = some 6; log_level = some 7 })
    ∷ Cell.logging (record {
      dag_processing_logs = none;
      scheduler_logs = none;
      task_logs = some 8;
      webserver_logs = none;
      worker_logs = none;
    })
    ∷ Cell.number (pos 10)
    ∷ Cell.number (pos 1)
    ∷ Cell.text "prod"
    ∷ Cell.text "sg-1"
    ∷ Cell.slice (some 13 ∷ [])
    ∷ Cell.text "subnet-1"
    ∷ Cell.text "subnet-2"
    ∷ Cell.slice (some 15 ∷ some 16 ∷ [])
    ∷ Cell.network (record {
      security_group_ids = some 14;
      security_group_refs = none;
      subnet_ids = some 17;
      subnet_refs = none;
    })
    ∷ Cell.text "arn:aws:s3:::dags"
    ∷ Cell.text "data"
    ∷ Cell.entries (("team", some 20) ∷ [])
    ∷ Cell.text "AVAILABLE"
    ∷ Cell.condition first_condition
    ∷ Cell.condition second_condition
    ∷ Cell.slice (some 23 ∷ some 24 ∷ [])
    ∷ Cell.environment
        (record { meta = prod_meta; spec = prod_struct; status = prod_status_struct })
    ∷ []

-- The cell of an address.
abbrev pub cell_of : List (Cell plain_structs) → ℕ → Option (Cell plain_structs)
cell_of [] a = none
cell_of (c ∷ rest) a = if a == 0 then some c else cell_of rest (a - 1)

abbrev pub memory : Heap plain_structs
memory = record { next = 27; cell = cell_of cells }

abbrev pub prod_in_memory : Environment
prod_in_memory = record {
  meta = prod_meta;
  spec = prod_spec;
  status = record {
    ack_resource_metadata = none;
    conditions = some (first_condition ∷ second_condition ∷ []);
    created_at = none;
    last_update = none;
    status = some "AVAILABLE";
    webserver_url = none;
  };
}
