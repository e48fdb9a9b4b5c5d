-- ===== src/DeepCopy/Tests.antt =====
-- The results on `DeepCopy`, on a memory with the sample environment.
use mwaa_controller.Common.{nat_eq, ℕ, ◌≤◌, ◌⊎◌, ◌<◌, ◌≡◌, refl, arith, none, some}
use mwaa_controller.DeepCopy.Heap.{Ptr, Heap, Box, Cell, write}
use mwaa_controller.DeepCopy.Boxes.{
  text_box, number_box, flag_box, slice_box, entries_box, module_logs_box, logging_box, network_box,
  environment_box, condition_box,
}
use mwaa_controller.DeepCopy.Resource.{deep_copy}
use mwaa_controller.DeepCopy.Means.{Holds, EnvironmentAt, SpecMeans, StatusMeans}
use mwaa_controller.DeepCopy.Isolation.{deep_copy-EnvironmentAt, deep_copy_apart}
use mwaa_controller.Samples.Resources.{prod_spec}
use mwaa_controller.Samples.Memory.{
  plain_structs, plain_meanings, plain_copies, plain_copies-CopiesAreLawful, prod_struct,
  prod_status_struct, memory, prod_in_memory,
}

at :
    {A : Type 0} (box : Box plain_structs A) (a : ℕ) (x : A)
    → a < memory.next
    → memory.cell a ≡ some (box.put x)
    → Holds box memory a x
at box a x t e = record { taken = t; holds = e }

prod-SpecMeans : SpecMeans plain_meanings memory prod_struct prod_spec
unfolding nat_eq
prod-SpecMeans = record {
  airflow_configuration_options = (
    _,
    _,
    at entries_box 1 _ (omega arith) refl,
    (_, _, (_, _, at text_box 0 _ (omega arith) refl, refl, refl), refl, refl),
    refl,
  );
  airflow_version = (_, _, at text_box 2 _ (omega arith) refl, refl, refl);
  dag_s3_path = (_, _, at text_box 3 _ (omega arith) refl, refl, refl);
  endpoint_management = refl;
  environment_class = (_, _, at text_box 4 _ (omega arith) refl, refl, refl);
  execution_role_arn = (_, _, at text_box 5 _ (omega arith) refl, refl, refl);
  execution_role_ref = refl;
  kms_key = refl;
  kms_key_ref = refl;
  logging_configuration = (
    _,
    _,
    at logging_box 9 _ (omega arith) refl,
    record {
      dag_processing_logs = refl;
      scheduler_logs = refl;
      task_logs = (
        _,
        _,
        at module_logs_box 8 _ (omega arith) refl,
        record {
          enabled = (_, _, at flag_box 6 _ (omega arith) refl, refl, refl);
          log_level = (_, _, at text_box 7 _ (omega arith) refl, refl, refl);
        },
        refl,
      );
      webserver_logs = refl;
      worker_logs = refl;
    },
    refl,
  );
  max_webservers = refl;
  max_workers = (_, _, at number_box 10 _ (omega arith) refl, refl, refl);
  min_webservers = refl;
  min_workers = (_, _, at number_box 11 _ (omega arith) refl, refl, refl);
  name = (_, _, at text_box 12 _ (omega arith) refl, refl, refl);
  network_configuration = (
    _,
    _,
    at network_box 18 _ (omega arith) refl,
    record {
      security_group_ids = (
        _,
        _,
        at slice_box 14 _ (omega arith) refl,
        (_, _, (_, _, at text_box 13 _ (omega arith) refl, refl, refl), refl, refl),
        refl,
      );
      security_group_refs = (none, refl, refl);
      subnet_ids = (
        _,
        _,
        at slice_box 17 _ (omega arith) refl,
        (
          _,
          _,
          (_, _, at text_box 15 _ (omega arith) refl, refl, refl),
          (_, _, (_, _, at text_box 16 _ (omega arith) refl, refl, refl), refl, refl),
          refl,
        ),
        refl,
      );
      subnet_refs = (none, refl, refl);
    },
    refl,
  );
  plugins_s3_object_version = refl;
  plugins_s3_path = refl;
  requirements_s3_object_version = refl;
  requirements_s3_path = refl;
  schedulers = refl;
  source_bucket_arn = (_, _, at text_box 19 _ (omega arith) refl, refl, refl);
  source_bucket_ref = refl;
  startup_script_s3_object_version = refl;
  startup_script_s3_path = refl;
  tags = (
    _,
    _,
    at entries_box 21 _ (omega arith) refl,
    (_, _, (_, _, at text_box 20 _ (omega arith) refl, refl, refl), refl, refl),
    refl,
  );
  webserver_access_mode = refl;
  weekly_maintenance_window_start = refl;
}

prod-StatusMeans : StatusMeans plain_meanings memory prod_status_struct prod_in_memory.status
unfolding nat_eq
prod-StatusMeans = record {
  ack_resource_metadata = refl;
  conditions = (
    _,
    _,
    at slice_box 25 _ (omega arith) refl,
    (
      _,
      _,
      (_, _, at condition_box 23 _ (omega arith) refl, refl, refl),
      (_, _, (_, _, at condition_box 24 _ (omega arith) refl, refl, refl), refl, refl),
      refl,
    ),
    refl,
  );
  created_at = refl;
  last_update = refl;
  status = (_, _, at text_box 22 _ (omega arith) refl, refl, refl);
  webserver_url = refl;
}

prod_at : EnvironmentAt plain_meanings memory (some 26) (some prod_in_memory)
unfolding nat_eq
prod_at = (
  _,
  _,
  at environment_box 26 _ (omega arith) refl,
  record { meta = refl; spec = prod-SpecMeans; status = prod-StatusMeans },
  refl,
)

deep_copy-EnvironmentAt_example :
    (q : Ptr) × (g : Heap plain_structs) × (deep_copy plain_copies (some 26) memory ≡ some (q, g))
    × EnvironmentAt plain_meanings g (some 26) (some prod_in_memory)
    × EnvironmentAt plain_meanings g q (some prod_in_memory)
deep_copy-EnvironmentAt_example =
    deep_copy-EnvironmentAt plain_meanings plain_copies plain_copies-CopiesAreLawful memory
      (some 26) (some prod_in_memory) prod_at

deep_copy_apart_example :
    (q : Ptr) × (g : Heap plain_structs) × (deep_copy plain_copies (some 26) memory ≡ some (q, g))
    × (((2 < 27) × EnvironmentAt plain_meanings (write g 2 (Cell.text "3")) q (some prod_in_memory))
        ⊎ ((27 ≤ 2)
            × EnvironmentAt plain_meanings
                (write g 2 (Cell.text "3"))
                (some 26)
                (some prod_in_memory)))
deep_copy_apart_example =
    deep_copy_apart plain_meanings plain_copies plain_copies-CopiesAreLawful memory (some 26)
      (some prod_in_memory) 2 (Cell.text "3") prod_at
