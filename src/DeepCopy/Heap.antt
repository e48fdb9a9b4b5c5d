-- ===== src/DeepCopy/Heap.antt =====
-- The memory of a Go program, as far as a resource reaches: a pointer, a slice or a map that is not
-- nil is the address of a cell. The structs have such addresses in their fields.
use mathlib.Core.Option
use mwaa_controller.Common.{ℕ, ◌+◌, ◌≡◌, String, Bool, Option, none, some, List}
use mwaa_controller.Common.{if◌then◌else◌, ◌==◌, nat_eq}
use mwaa_controller.Common.Dict.{Dict}
use mwaa_controller.Common.Int.{ℤ}

-- The structs of other repositories, each with the pointers that it may have.
pub record Foreign : Type 1 where
  -- `AWSResourceReferenceWrapper`, `ResourceMetadata` and `Condition` of the ACK runtime
  pub Wrapper : Type 0
  pub Metadata : Type 0
  pub Condition : Type 0
  -- `metav1.Time`, `metav1.ObjectMeta` and `metav1.ListMeta`
  pub Stamp : Type 0
  pub ObjectMeta : Type 0
  pub ListMeta : Type 0

abbrev pub Ptr : Type 0
Ptr = Option ℕ

-- `ModuleLoggingConfigurationInput`
pub record ModuleLogsStruct : Type 0 where
  pub enabled : Ptr
  pub log_level : Ptr

-- `LoggingConfigurationInput`
pub record LoggingStruct : Type 0 where
  pub dag_processing_logs : Ptr
  pub scheduler_logs : Ptr
  pub task_logs : Ptr
  pub webserver_logs : Ptr
  pub worker_logs : Ptr

-- `NetworkConfiguration`
pub record NetworkStruct : Type 0 where
  pub security_group_ids : Ptr
  pub security_group_refs : Ptr
  pub subnet_ids : Ptr
  pub subnet_refs : Ptr

-- `UpdateError`
pub record UpdateErrorStruct : Type 0 where
  pub error_code : Ptr
  pub error_message : Ptr

-- `LastUpdate`
pub record LastUpdateStruct : Type 0 where
  pub created_at : Ptr
  pub error : Ptr
  pub source : Ptr
  pub status : Ptr
  pub worker_replacement_strategy : Ptr

-- `EnvironmentSpec`
pub record SpecStruct : Type 0 where
  pub airflow_configuration_options : Ptr
  pub airflow_version : Ptr
  pub dag_s3_path : Ptr
  pub endpoint_management : Ptr
  pub environment_class : Ptr
  pub execution_role_arn : Ptr
  pub execution_role_ref : Ptr
  pub kms_key : Ptr
  pub kms_key_ref : Ptr
  pub logging_configuration : Ptr
  pub max_webservers : Ptr
  pub max_workers : Ptr
  pub min_webservers : Ptr
  pub min_workers : Ptr
  pub name : Ptr
  pub network_configuration : Ptr
  pub plugins_s3_object_version : Ptr
  pub plugins_s3_path : Ptr
  pub requirements_s3_object_version : Ptr
  pub requirements_s3_path : Ptr
  pub schedulers : Ptr
  pub source_bucket_arn : Ptr
  pub source_bucket_ref : Ptr
  pub startup_script_s3_object_version : Ptr
  pub startup_script_s3_path : Ptr
  pub tags : Ptr
  pub webserver_access_mode : Ptr
  pub weekly_maintenance_window_start : Ptr

-- `EnvironmentStatus`
pub record StatusStruct : Type 0 where
  pub ack_resource_metadata : Ptr
  pub conditions : Ptr
  pub created_at : Ptr
  pub last_update : Ptr
  pub status : Ptr
  pub webserver_url : Ptr

module _ (F : Foreign) where
  -- `Environment`, whose metadata, spec and status are part of it. The two strings of its `TypeMeta`
  -- are left out.
  pub record EnvironmentStruct : Type 0 where
    pub meta : F.ObjectMeta
    pub spec : SpecStruct
    pub status : StatusStruct

  -- `EnvironmentList`
  pub record EnvironmentListStruct : Type 0 where
    pub meta : F.ListMeta
    pub items : Ptr

  -- What stands at an address.
  pub data Cell : Type 0 where
    text : String → Cell
    number : ℤ → Cell
    flag : Bool → Cell
    slice : List Ptr → Cell
    entries : Dict Ptr → Cell
    module_logs : ModuleLogsStruct → Cell
    logging : LoggingStruct → Cell
    network : NetworkStruct → Cell
    update_error : UpdateErrorStruct → Cell
    last_update : LastUpdateStruct → Cell
    environment : EnvironmentStruct → Cell
    environments : List EnvironmentStruct → Cell
    environment_list : EnvironmentListStruct → Cell
    wrapper : F.Wrapper → Cell
    metadata : F.Metadata → Cell
    condition : F.Condition → Cell
    stamp : F.Stamp → Cell

  -- Addresses from `next` on are free.
  pub record Heap : Type 0 where
    pub next : ℕ
    pub cell : ℕ → Option Cell

  -- A call that may read through a pointer to a cell of another type or to none.
  abbrev pub Run : Type 0 → Type 0
  Run A = Heap → Option (A × Heap)

  -- A type whose values are cells.
  pub record Box (A : Type 0) : Type 0 where
    pub put : A → Cell
    pub get : Cell → Option A
    pub get-put : (x : A) → get (put x) ≡ some x

module _ {F : Foreign} where
  -- A cell is overwritten.
  unfoldable pub write : Heap F → ℕ → Cell F → Heap F
  write h a c = record h { cell = λ b. if b == a then some c else h.cell b }

  -- `new` or `make`, with what is put there at once.
  unfoldable pub alloc : Heap F → Cell F → Heap F
  alloc h c = record { next = h.next + 1; cell = λ b. if b == h.next then some c else h.cell b }

  abbrev pub pure : {A : Type 0} → A → Run F A
  pure x h = some (x, h)

  infixl 5 ◌>>=◌
  unfoldable pub ◌>>=◌ : {A B : Type 0} → Run F A → (A → Run F B) → Run F B
  ◌>>=◌ first next h = elim (first h) [ none ↦ none | some (x, h') ↦ next x h' ]

  -- `*p`
  unfoldable pub load : {A : Type 0} → Box F A → ℕ → Run F A
  load box a h = elim (h.cell a) [ none ↦ none | some c ↦ Option.map (λ x. (x, h)) (box.get c) ]

  -- `p = new(T); *p = x`
  unfoldable pub store_new : {A : Type 0} → Box F A → A → Run F ℕ
  store_new box x h = some (h.next, alloc h (box.put x))
