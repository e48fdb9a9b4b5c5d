-- ===== src/DeepCopy/Resource.antt =====
-- The structs of apis/v1alpha1/zz_generated.deepcopy.go with fields of other repositories, up to
-- `Environment`.
use mwaa_controller.Common.{none, some}
use mwaa_controller.DeepCopy.Heap.{
  Foreign, Ptr, Run, EnvironmentStruct, EnvironmentListStruct, pure, ◌>>=◌,
}
use mwaa_controller.DeepCopy.Heap.{NetworkStruct, LastUpdateStruct, SpecStruct, StatusStruct}
use mwaa_controller.DeepCopy.Boxes.{
  slice_box, environments_box, environment_list_box, network_box, last_update_box, environment_box,
  wrapper_box, metadata_box, condition_box,
}
use mwaa_controller.DeepCopy.Into.{
  copy_ptr, copy_given, copy_each, copy_text, copy_number, copy_map, copy_texts, copy_logging,
  copy_update_error, Copies,
}

module _ {F : Foreign} (X : Copies F) where
  abbrev pub copy_wrapper : Ptr → Run F Ptr
  copy_wrapper = copy_ptr wrapper_box X.copy_wrapper

  abbrev pub copy_metadata : Ptr → Run F Ptr
  copy_metadata = copy_ptr metadata_box X.copy_metadata

  abbrev pub copy_condition : Ptr → Run F Ptr
  copy_condition = copy_ptr condition_box X.copy_condition

  abbrev pub copy_stamp : Ptr → Run F Ptr
  copy_stamp = copy_given X.deep_copy_stamp

  abbrev pub copy_wrappers : Ptr → Run F Ptr
  copy_wrappers = copy_ptr slice_box (copy_each copy_wrapper)

  abbrev pub copy_conditions : Ptr → Run F Ptr
  copy_conditions = copy_ptr slice_box (copy_each copy_condition)

  -- `NetworkConfiguration.DeepCopyInto`
  unfoldable pub copy_network_into : NetworkStruct → Run F NetworkStruct
  copy_network_into s = do
    security_group_ids' ← copy_texts s.security_group_ids
    security_group_refs' ← copy_wrappers s.security_group_refs
    subnet_ids' ← copy_texts s.subnet_ids
    subnet_refs' ← copy_wrappers s.subnet_refs
    pure (record {
      security_group_ids = security_group_ids';
      security_group_refs = security_group_refs';
      subnet_ids = subnet_ids';
      subnet_refs = subnet_refs';
    })

  abbrev pub copy_network : Ptr → Run F Ptr
  copy_network = copy_ptr network_box copy_network_into

  -- `LastUpdate.DeepCopyInto`
  unfoldable pub copy_last_update_into : LastUpdateStruct → Run F LastUpdateStruct
  copy_last_update_into s = do
    created_at' ← copy_stamp s.created_at
    error' ← copy_update_error s.error
    source' ← copy_text s.source
    status' ← copy_text s.status
    worker_replacement_strategy' ← copy_text s.worker_replacement_strategy
    pure (record {
      created_at = created_at';
      error = error';
      source = source';
      status = status';
      worker_replacement_strategy = worker_replacement_strategy';
    })

  abbrev pub copy_last_update : Ptr → Run F Ptr
  copy_last_update = copy_ptr last_update_box copy_last_update_into

  -- `EnvironmentSpec.DeepCopyInto`
  unfoldable pub copy_spec_into : SpecStruct → Run F SpecStruct
  copy_spec_into s = do
    airflow_configuration_options' ← copy_map s.airflow_configuration_options
    airflow_version' ← copy_text s.airflow_version
    dag_s3_path' ← copy_text s.dag_s3_path
    endpoint_management' ← copy_text s.endpoint_management
    environment_class' ← copy_text s.environment_class
    execution_role_arn' ← copy_text s.execution_role_arn
    execution_role_ref' ← copy_wrapper s.execution_role_ref
    kms_key' ← copy_text s.kms_key
    kms_key_ref' ← copy_wrapper s.kms_key_ref
    logging_configuration' ← copy_logging s.logging_configuration
    max_webservers' ← copy_number s.max_webservers
    max_workers' ← copy_number s.max_workers
    min_webservers' ← copy_number s.min_webservers
    min_workers' ← copy_number s.min_workers
    name' ← copy_text s.name
    network_configuration' ← copy_network s.network_configuration
    plugins_s3_object_version' ← copy_text s.plugins_s3_object_version
    plugins_s3_path' ← copy_text s.plugins_s3_path
    requirements_s3_object_version' ← copy_text s.requirements_s3_object_version
    requirements_s3_path' ← copy_text s.requirements_s3_path
    schedulers' ← copy_number s.schedulers
    source_bucket_arn' ← copy_text s.source_bucket_arn
    source_bucket_ref' ← copy_wrapper s.source_bucket_ref
    startup_script_s3_object_version' ← copy_text s.startup_script_s3_object_version
    startup_script_s3_path' ← copy_text s.startup_script_s3_path
    tags' ← copy_map s.tags
    webserver_access_mode' ← copy_text s.webserver_access_mode
    weekly_maintenance_window_start' ← copy_text s.weekly_maintenance_window_start
    pure (record {
      airflow_configuration_options = airflow_configuration_options';
      airflow_version = airflow_version';
      dag_s3_path = dag_s3_path';
      endpoint_management = endpoint_management';
      environment_class = environment_class';
      execution_role_arn = execution_role_arn';
      execution_role_ref = execution_role_ref';
      kms_key = kms_key';
      kms_key_ref = kms_key_ref';
      logging_configuration = logging_configuration';
      max_webservers = max_webservers';
      max_workers = max_workers';
      min_webservers = min_webservers';
      min_workers = min_workers';
      name = name';
      network_configuration = network_configuration';
      plugins_s3_object_version = plugins_s3_object_version';
      plugins_s3_path = plugins_s3_path';
      requirements_s3_object_version = requirements_s3_object_version';
      requirements_s3_path = requirements_s3_path';
      schedulers = schedulers';
      source_bucket_arn = source_bucket_arn';
      source_bucket_ref = source_bucket_ref';
      startup_script_s3_object_version = startup_script_s3_object_version';
      startup_script_s3_path = startup_script_s3_path';
      tags = tags';
      webserver_access_mode = webserver_access_mode';
      weekly_maintenance_window_start = weekly_maintenance_window_start';
    })

  -- `EnvironmentStatus.DeepCopyInto`
  unfoldable pub copy_status_into : StatusStruct → Run F StatusStruct
  copy_status_into s = do
    ack_resource_metadata' ← copy_metadata s.ack_resource_metadata
    conditions' ← copy_conditions s.conditions
    created_at' ← copy_stamp s.created_at
    last_update' ← copy_last_update s.last_update
    status' ← copy_text s.status
    webserver_url' ← copy_text s.webserver_url
    pure (record {
      ack_resource_metadata = ack_resource_metadata';
      conditions = conditions';
      created_at = created_at';
      last_update = last_update';
      status = status';
      webserver_url = webserver_url';
    })

  -- `Environment.DeepCopyInto`
  unfoldable pub copy_environment_into : EnvironmentStruct F → Run F (EnvironmentStruct F)
  copy_environment_into s = do
    meta' ← X.copy_object_meta s.meta
    spec' ← copy_spec_into s.spec
    status' ← copy_status_into s.status
    pure (record { meta = meta'; spec = spec'; status = status' })

  -- `Environment.DeepCopy`
  unfoldable pub deep_copy : Ptr → Run F Ptr
  deep_copy = copy_ptr environment_box copy_environment_into

  -- `Environment.DeepCopyObject`
  unfoldable pub deep_copy_object : Ptr → Run F Ptr
  deep_copy_object p = do c ← deep_copy p; elim c [ none ↦ pure none | some a ↦ pure (some a) ]

  -- `EnvironmentList.DeepCopyInto`
  unfoldable pub copy_environment_list_into :
      EnvironmentListStruct F → Run F (EnvironmentListStruct F)
  copy_environment_list_into s = do
    meta' ← X.copy_list_meta s.meta
    items' ← copy_ptr environments_box (copy_each copy_environment_into) s.items
    pure (record { meta = meta'; items = items' })

  -- `EnvironmentList.DeepCopy`
  unfoldable pub deep_copy_list : Ptr → Run F Ptr
  deep_copy_list = copy_ptr environment_list_box copy_environment_list_into
