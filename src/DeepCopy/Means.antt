-- ===== src/DeepCopy/Means.antt =====
-- What stands in the memory for a value of the API types: the cell is taken, and it and those that it
-- leads to hold the value.
use mwaa_controller.Common.{ℕ, ◌<◌, ◌≡◌, String, Bool, Option, none, some, List, [], ◌∷◌, elements}
use mwaa_controller.Common.Dict.{Dict}
use mwaa_controller.Common.Int.{ℤ}
use mwaa_controller.Api.{Environment, EnvironmentSpec, EnvironmentStatus, NetworkConfiguration}
use mwaa_controller.Api.{LastUpdate, UpdateError, LoggingConfigurationInput}
use mwaa_controller.Api.{ModuleLoggingConfigurationInput, ResourceRef, ResourceMetadata, Condition}
use mwaa_controller.Api.{Time, ObjectMeta}
use mwaa_controller.DeepCopy.Heap.{
  Foreign, Ptr, Heap, Box, EnvironmentStruct, EnvironmentListStruct,
}
use mwaa_controller.DeepCopy.Heap.{
  ModuleLogsStruct, LoggingStruct, NetworkStruct, UpdateErrorStruct, LastUpdateStruct, SpecStruct,
  StatusStruct,
}
use mwaa_controller.DeepCopy.Boxes

-- `x` stands for a value.
abbrev pub Means : Foreign → Type 0 → Type 0 → Type 1
Means F A V = Heap F → A → V → Type 0

-- What the structs of other repositories stand for.
pub record Meanings (F : Foreign) : Type 1 where
  pub wrapper : Means F F.Wrapper ResourceRef
  pub metadata : Means F F.Metadata ResourceMetadata
  pub condition : Means F F.Condition Condition
  pub stamp : Means F F.Stamp Time
  pub object_meta : Means F F.ObjectMeta ObjectMeta
  pub ListMeta : Type 0
  pub list_meta : Means F F.ListMeta ListMeta

-- A value of `EnvironmentList`.
pub record EnvironmentList (L : Type 0) : Type 0 where
  pub meta : L
  pub items : Option (List Environment)

module _ {F : Foreign} where
  -- The cell at an address that is taken.
  pub record Holds {A : Type 0} (box : Box F A) (h : Heap F) (a : ℕ) (x : A) : Type 0 where
    pub taken : a < h.next
    pub holds : h.cell a ≡ some (box.put x)

  -- A value without pointers.
  abbrev pub Plain : {A : Type 0} → Means F A A
  Plain h x v = v ≡ x

  abbrev pub PtrAt : {A V : Type 0} → Box F A → Means F A V → Means F Ptr (Option V)
  PtrAt box M h none v = v ≡ none
  PtrAt {A} {V} box M h (some a) v = (x : A) × (w : V) × Holds box h a x × M h x w × (v ≡ some w)

  abbrev pub EachAt : {A V : Type 0} → Means F A V → Means F (List A) (List V)
  EachAt M h [] v = v ≡ []
  EachAt {A} {V} M h (p ∷ ps) v =
      (w : V) × (ws : List V) × M h p w × EachAt M h ps ws × (v ≡ w ∷ ws)

  abbrev pub EntriesAt : {V : Type 0} → Means F Ptr V → Means F (Dict Ptr) (Dict V)
  EntriesAt M h [] v = v ≡ []
  EntriesAt {V} M h ((key, p) ∷ d) v =
      (w : V) × (ws : Dict V) × M h p w × EntriesAt M h d ws × (v ≡ (key, w) ∷ ws)

  -- An element that is not nil, and a slice of which nil and empty are the same.
  abbrev pub Present : {V : Type 0} → Means F Ptr (Option V) → Means F Ptr V
  Present M h p v = M h p (some v)

  abbrev pub OrEmpty : {V : Type 0} → Means F Ptr (Option (List V)) → Means F Ptr (List V)
  OrEmpty {V} M h p v = (o : Option (List V)) × M h p o × (v ≡ elements o)

  abbrev pub TextAt : Means F Ptr (Option String)
  TextAt = PtrAt Boxes.text_box Plain

  abbrev pub NumberAt : Means F Ptr (Option ℤ)
  NumberAt = PtrAt Boxes.number_box Plain

  abbrev pub FlagAt : Means F Ptr (Option Bool)
  FlagAt = PtrAt Boxes.flag_box Plain

  abbrev pub MapAt : Means F Ptr (Option (Dict (Option String)))
  MapAt = PtrAt Boxes.entries_box (EntriesAt TextAt)

  abbrev pub TextsAt : Means F Ptr (Option (List (Option String)))
  TextsAt = PtrAt Boxes.slice_box (EachAt TextAt)

  pub record ModuleLogsMeans (h : Heap F) (s : ModuleLogsStruct)
      (v : ModuleLoggingConfigurationInput) : Type 0 where
    pub enabled : FlagAt h s.enabled v.enabled
    pub log_level : TextAt h s.log_level v.log_level

  abbrev pub ModuleLogsAt : Means F Ptr (Option ModuleLoggingConfigurationInput)
  ModuleLogsAt = PtrAt Boxes.module_logs_box ModuleLogsMeans

  pub record LoggingMeans (h : Heap F) (s : LoggingStruct) (v : LoggingConfigurationInput)
      : Type 0 where
    pub dag_processing_logs : ModuleLogsAt h s.dag_processing_logs v.dag_processing_logs
    pub scheduler_logs : ModuleLogsAt h s.scheduler_logs v.scheduler_logs
    pub task_logs : ModuleLogsAt h s.task_logs v.task_logs
    pub webserver_logs : ModuleLogsAt h s.webserver_logs v.webserver_logs
    pub worker_logs : ModuleLogsAt h s.worker_logs v.worker_logs

  abbrev pub LoggingAt : Means F Ptr (Option LoggingConfigurationInput)
  LoggingAt = PtrAt Boxes.logging_box LoggingMeans

  pub record UpdateErrorMeans (h : Heap F) (s : UpdateErrorStruct) (v : UpdateError) : Type 0 where
    pub error_code : TextAt h s.error_code v.error_code
    pub error_message : TextAt h s.error_message v.error_message

  abbrev pub UpdateErrorAt : Means F Ptr (Option UpdateError)
  UpdateErrorAt = PtrAt Boxes.update_error_box UpdateErrorMeans

module _ {F : Foreign} (N : Meanings F) where
  abbrev pub WrapperAt : Means F Ptr (Option ResourceRef)
  WrapperAt = PtrAt Boxes.wrapper_box N.wrapper

  abbrev pub MetadataAt : Means F Ptr (Option ResourceMetadata)
  MetadataAt = PtrAt Boxes.metadata_box N.metadata

  abbrev pub ConditionAt : Means F Ptr (Option Condition)
  ConditionAt = PtrAt Boxes.condition_box N.condition

  abbrev pub StampAt : Means F Ptr (Option Time)
  StampAt = PtrAt Boxes.stamp_box N.stamp

  abbrev pub WrappersAt : Means F Ptr (List (Option ResourceRef))
  WrappersAt = OrEmpty (PtrAt Boxes.slice_box (EachAt WrapperAt))

  abbrev pub ConditionsAt : Means F Ptr (Option (List Condition))
  ConditionsAt = PtrAt Boxes.slice_box (EachAt (Present ConditionAt))

  pub record NetworkMeans (h : Heap F) (s : NetworkStruct) (v : NetworkConfiguration) : Type 0 where
    pub security_group_ids : TextsAt h s.security_group_ids v.security_group_ids
    pub security_group_refs : WrappersAt h s.security_group_refs v.security_group_refs
    pub subnet_ids : TextsAt h s.subnet_ids v.subnet_ids
    pub subnet_refs : WrappersAt h s.subnet_refs v.subnet_refs

  abbrev pub NetworkAt : Means F Ptr (Option NetworkConfiguration)
  NetworkAt = PtrAt Boxes.network_box NetworkMeans

  pub record LastUpdateMeans (h : Heap F) (s : LastUpdateStruct) (v : LastUpdate) : Type 0 where
    pub created_at : StampAt h s.created_at v.created_at
    pub error : UpdateErrorAt h s.error v.error
    pub source : TextAt h s.source v.source
    pub status : TextAt h s.status v.status
    pub worker_replacement_strategy :
        TextAt h s.worker_replacement_strategy v.worker_replacement_strategy

  abbrev pub LastUpdateAt : Means F Ptr (Option LastUpdate)
  LastUpdateAt = PtrAt Boxes.last_update_box LastUpdateMeans

  pub record SpecMeans (h : Heap F) (s : SpecStruct) (v : EnvironmentSpec) : Type 0 where
    pub airflow_configuration_options :
        MapAt h s.airflow_configuration_options v.airflow_configuration_options
    pub airflow_version : TextAt h s.airflow_version v.airflow_version
    pub dag_s3_path : TextAt h s.dag_s3_path v.dag_s3_path
    pub endpoint_management : TextAt h s.endpoint_management v.endpoint_management
    pub environment_class : TextAt h s.environment_class v.environment_class
    pub execution_role_arn : TextAt h s.execution_role_arn v.execution_role_arn
    pub execution_role_ref : WrapperAt h s.execution_role_ref v.execution_role_ref
    pub kms_key : TextAt h s.kms_key v.kms_key
    pub kms_key_ref : WrapperAt h s.kms_key_ref v.kms_key_ref
    pub logging_configuration : LoggingAt h s.logging_configuration v.logging_configuration
    pub max_webservers : NumberAt h s.max_webservers v.max_webservers
    pub max_workers : NumberAt h s.max_workers v.max_workers
    pub min_webservers : NumberAt h s.min_webservers v.min_webservers
    pub min_workers : NumberAt h s.min_workers v.min_workers
    pub name : TextAt h s.name v.name
    pub network_configuration : NetworkAt h s.network_configuration v.network_configuration
    pub plugins_s3_object_version : TextAt h s.plugins_s3_object_version v.plugins_s3_object_version
    pub plugins_s3_path : TextAt h s.plugins_s3_path v.plugins_s3_path
    pub requirements_s3_object_version :
        TextAt h s.requirements_s3_object_version v.requirements_s3_object_version
    pub requirements_s3_path : TextAt h s.requirements_s3_path v.requirements_s3_path
    pub schedulers : NumberAt h s.schedulers v.schedulers
    pub source_bucket_arn : TextAt h s.source_bucket_arn v.source_bucket_arn
    pub source_bucket_ref : WrapperAt h s.source_bucket_ref v.source_bucket_ref
    pub startup_script_s3_object_version :
        TextAt h s.startup_script_s3_object_version v.startup_script_s3_object_version
    pub startup_script_s3_path : TextAt h s.startup_script_s3_path v.startup_script_s3_path
    pub tags : MapAt h s.tags v.tags
    pub webserver_access_mode : TextAt h s.webserver_access_mode v.webserver_access_mode
    pub weekly_maintenance_window_start :
        TextAt h s.weekly_maintenance_window_start v.weekly_maintenance_window_start

  pub record StatusMeans (h : Heap F) (s : StatusStruct) (v : EnvironmentStatus) : Type 0 where
    pub ack_resource_metadata : MetadataAt h s.ack_resource_metadata v.ack_resource_metadata
    pub conditions : ConditionsAt h s.conditions v.conditions
    pub created_at : StampAt h s.created_at v.created_at
    pub last_update : LastUpdateAt h s.last_update v.last_update
    pub status : TextAt h s.status v.status
    pub webserver_url : TextAt h s.webserver_url v.webserver_url

  pub record EnvironmentMeans (h : Heap F) (s : EnvironmentStruct F) (v : Environment)
      : Type 0 where
    pub meta : N.object_meta h s.meta v.meta
    pub spec : SpecMeans h s.spec v.spec
    pub status : StatusMeans h s.status v.status

  -- A `*Environment`.
  abbrev pub EnvironmentAt : Means F Ptr (Option Environment)
  EnvironmentAt = PtrAt Boxes.environment_box EnvironmentMeans

  pub record EnvironmentListMeans (h : Heap F) (s : EnvironmentListStruct F)
      (v : EnvironmentList N.ListMeta) : Type 0 where
    pub meta : N.list_meta h s.meta v.meta
    pub items : PtrAt Boxes.environments_box (EachAt EnvironmentMeans) h s.items v.items

  -- A `*EnvironmentList`.
  abbrev pub EnvironmentListAt : Means F Ptr (Option (EnvironmentList N.ListMeta))
  EnvironmentListAt = PtrAt Boxes.environment_list_box EnvironmentListMeans
