-- ===== src/Ext/Process.antt =====
-- What cmd/controller/main.go takes from the ACK runtime and from controller-runtime. The version and
-- the registry of metrics, which it hands to the service controller, are part of the latter.
use mwaa_controller.Common.{ℕ, String, Bool, Option, List, Result}
use mwaa_controller.Common.Dict.{Dict}

-- The fields of `ackcfg.Config` that `main` reads.
pub record Config : Type 0 where
  pub webhook_server_addr : String
  pub watch_namespace : String
  pub enable_webhook_server : Bool
  pub metrics_addr : String
  pub enable_leader_election : Bool
  pub leader_election_namespace : String
  pub healthz_addr : String

-- `ctrlrtcache.Config{}`
abbrev pub CacheConfig : Type 0
CacheConfig = Unit

-- `ctrlrt.Options`, with what `main` sets.
pub record Options (Scheme Selectors : Type 0) : Type 0 where
  pub scheme : Scheme
  pub cache_scheme : Scheme
  pub default_namespaces : Dict CacheConfig
  pub default_label_selector : Selectors
  pub webhook_port : ℕ
  pub webhook_host : String
  pub metrics_bind_address : String
  pub leader_election : Bool
  pub leader_election_id : String
  pub leader_election_namespace : String
  pub health_probe_bind_address : String
  pub liveness_endpoint_name : String
  pub readiness_endpoint_name : String

-- The libraries, over what they keep.
pub record Libraries : Type 1 where
  pub World : Type 0
  pub Error : Type 0
  pub Scheme : Type 0
  pub Selectors : Type 0
  pub RestConfig : Type 0
  pub ManagerFactory : Type 0
  pub Kind : Type 0
  pub ControllerManager : Type 0
  pub Context : Type 0
  pub Controller : Type 0
  pub Webhook : Type 0
  -- `ackCfg.BindFlags`, `flag.Parse` and `ackCfg.SetupLogger`
  pub config : World → Config × World
  -- `reg.GetResourceManagerFactories`
  pub get_resource_manager_factories : World → List ManagerFactory
  -- `mf.ResourceDescriptor().GroupVersionKind()`
  pub group_version_kind : ManagerFactory → Kind
  pub validate : Config → List Kind → World → Result Error Unit × World
  pub get_host_port : String → Result Error (String × ℕ)
  pub get_watch_namespaces : Config → Result Error (List String)
  pub parse_watch_selectors : Config → Result Error Selectors
  -- the scheme after `init`
  pub scheme : World → Scheme
  -- `GetConfigOrDie`, which exits with the status 1 where it has no configuration
  pub get_config_or_die : World → Option RestConfig × World
  pub new_manager :
      RestConfig → Options Scheme Selectors → World → Result Error ControllerManager × World
  pub set_up_signal_handler : World → Context × World
  -- `NewServiceController` by the alias and the group of the service, with the factories
  pub new_service_controller : String → String → List ManagerFactory → Controller
  pub get_webhooks : List Webhook
  pub uid : Webhook → String
  pub set_up : Webhook → ControllerManager → World → Result Error Unit × World
  pub bind_controller_manager :
      Controller → ControllerManager → Config → World → Result Error Unit × World
  pub add_healthz_check : ControllerManager → String → World → Result Error Unit × World
  pub add_readyz_check : ControllerManager → String → World → Result Error Unit × World
  pub start : ControllerManager → Context → World → Result Error Unit × World
