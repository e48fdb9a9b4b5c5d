-- ===== src/Controller.antt =====
-- cmd/controller/main.go: the start of the process, and pkg/resource/registry.go, from which it has
-- the factories of resource managers.
pub mod Script
pub mod Order
pub mod Success
mod Tests
use mwaa_controller.Common.{ℕ, String, Bool, true, false, ◌<>◌, if◌then◌else◌}
use mwaa_controller.Common.{Option, none, some, List, [], ◌∷◌, ◌++◌, Result, ok, err}
use mwaa_controller.Common.Dict.{Dict, insert}
use mwaa_controller.Ext.Process.{CacheConfig, Config, Options, Libraries}

-- The calls of libraries that may fail, in `main`.
pub data Step : Type 0 where
  validate : Step
  get_host_port : Step
  get_watch_namespaces : Step
  parse_watch_selectors : Step
  get_config : Step
  new_manager : Step
  webhook_setup : Step
  bind_controller_manager : Step
  add_healthz_check : Step
  add_readyz_check : Step
  start : Step

-- A line of `setupLog`.
pub data Entry (Error : Type 0) : Type 0 where
  failure : Error → String → String → Entry Error
  info : String → Entry Error

abbrev pub aws_service_api_group : String
aws_service_api_group = "mwaa.services.k8s.aws"

abbrev pub aws_service_alias : String
aws_service_alias = "mwaa"

-- `make(map[string]ctrlrtcache.Config, 0)` and the loop that fills it
abbrev pub watch_namespaces : List String → Dict CacheConfig → Dict CacheConfig
watch_namespaces [] namespaces = namespaces
watch_namespaces (namespace ∷ rest) namespaces =
    watch_namespaces rest (insert namespace tt namespaces)

abbrev pub kinds_of : {A B : Type 0} → (A → B) → List A → List B
kinds_of kind [] = []
kinds_of kind (f ∷ fs) = kind f ∷ kinds_of kind fs

module _ (L : Libraries) where
  -- The process: what the libraries keep, the log, and the calls made, in their order.
  pub record Machine : Type 0 where
    pub world : L.World
    pub log : List (Entry L.Error)
    pub calls : List Step

  -- A part of `main`; the error is the status of `os.Exit`.
  abbrev pub Run : Type 0 → Type 0
  Run A = Machine → Result ℕ A × Machine

module _ {L : Libraries} where
  abbrev pub pure : {A : Type 0} → A → Run L A
  pure x m = (ok x, m)

  -- Nothing follows an exit.
  abbrev pub resume :
      {A B : Type 0} → Result ℕ A × Machine L → (A → Run L B) → Result ℕ B × Machine L
  resume (err status, m) next = (err status, m)
  resume (ok x, m) next = next x m

  infixl 5 ◌>>=◌
  unfoldable pub ◌>>=◌ : {A B : Type 0} → Run L A → (A → Run L B) → Run L B
  ◌>>=◌ first next m = resume (first m) next

  -- A call that does not fail.
  unfoldable pub do_call : {A : Type 0} → (L.World → A × L.World) → Run L A
  do_call call m = let (x, w) = call m.world in (ok x, record m { world = w })

  unfoldable pub logged : Entry L.Error → Run L Unit
  logged entry m = (ok tt, record m { log = m.log ++ (entry ∷ []) })

  -- The machine after a call.
  abbrev pub called : Step → L.World → Machine L → Machine L
  called step w m = record m { world = w; calls = m.calls ++ (step ∷ []) }

  -- `if err != nil { setupLog.Error(…); os.Exit(1) }`
  abbrev pub exit_on_error :
      {A : Type 0} → String → String → Result L.Error A → Machine L → Result ℕ A × Machine L
  exit_on_error text service (err e) m =
      (err 1, record m { log = m.log ++ (failure e text service ∷ []) })
  exit_on_error text service (ok x) m = (ok x, m)

  unfoldable pub or_exit :
      {A : Type 0} → Step → String → String → (L.World → Result L.Error A × L.World) → Run L A
  or_exit step text service call m =
      let (r, w) = call m.world in exit_on_error text service r (called step w m)

  -- A call that exits by itself.
  abbrev pub exit_on_none : {A : Type 0} → Option A → Machine L → Result ℕ A × Machine L
  exit_on_none none m = (err 1, m)
  exit_on_none (some x) m = (ok x, m)

  unfoldable pub or_die : {A : Type 0} → Step → (L.World → Option A × L.World) → Run L A
  or_die step call m = let (r, w) = call m.world in exit_on_none r (called step w m)

  -- The body of the loop over the webhooks: an error is logged, and no more.
  abbrev pub log_error : L.Webhook → Result L.Error Unit → Machine L → Result ℕ Unit × Machine L
  log_error webhook (err e) m =
      let entry = failure e ("unable to register webhook " <> L.uid webhook) aws_service_alias in
      (ok tt, record m { log = m.log ++ (entry ∷ []) })
  log_error webhook (ok x) m = (ok tt, m)

  unfoldable pub set_up_webhook : L.ControllerManager → L.Webhook → Run L Unit
  set_up_webhook mgr webhook m =
      let (r, w) = L.set_up webhook mgr m.world in log_error webhook r (called webhook_setup w m)

  unfoldable pub set_up_webhooks : L.ControllerManager → List L.Webhook → Run L Unit
  set_up_webhooks mgr [] = pure tt
  set_up_webhooks mgr (webhook ∷ rest) = do _ ← set_up_webhook mgr webhook; set_up_webhooks mgr rest

  -- `main` from the parse of the flags to the manager of controller-runtime
  unfoldable pub make_manager : Config → Run L L.ControllerManager
  make_manager ack_cfg = do
    factories ← do_call (λ w. (L.get_resource_manager_factories w, w))
    _ ←
        or_exit validate "Unable to create controller manager" aws_service_alias
          (L.validate ack_cfg (kinds_of L.group_version_kind factories))
    address ←
        or_exit get_host_port "Unable to parse webhook server address." aws_service_alias
          (λ w. (L.get_host_port ack_cfg.webhook_server_addr, w))
    namespaces ←
        or_exit get_watch_namespaces "Unable to parse watch namespaces." ack_cfg.watch_namespace
          (λ w. (L.get_watch_namespaces ack_cfg, w))
    watch_selectors ←
        or_exit parse_watch_selectors "Unable to parse watch selectors." aws_service_alias
          (λ w. (L.parse_watch_selectors ack_cfg, w))
    rest_config ← or_die get_config L.get_config_or_die
    scheme ← do_call (λ w. (L.scheme w, w))
    or_exit new_manager "unable to create controller manager" aws_service_alias (
        L.new_manager rest_config (record {
          scheme = scheme;
          cache_scheme = scheme;
          default_namespaces = watch_namespaces namespaces [];
          default_label_selector = watch_selectors;
          webhook_port = address.1;
          webhook_host = address.0;
          metrics_bind_address = ack_cfg.metrics_addr;
          leader_election = ack_cfg.enable_leader_election;
          leader_election_id = "ack-" <> aws_service_api_group;
          leader_election_namespace = ack_cfg.leader_election_namespace;
          health_probe_bind_address = ack_cfg.healthz_addr;
          liveness_endpoint_name = "/healthz";
          readiness_endpoint_name = "/readyz";
        }))

  -- `main` from the service controller on
  unfoldable pub run_manager : Config → L.ControllerManager → Run L Unit
  run_manager ack_cfg mgr = do
    stop_chan ← do_call L.set_up_signal_handler
    _ ← logged (info "initializing service controller")
    factories ← do_call (λ w. (L.get_resource_manager_factories w, w))
    _ ← if ack_cfg.enable_webhook_server then set_up_webhooks mgr L.get_webhooks else pure tt
    _ ←
        or_exit bind_controller_manager "unable bind to controller manager to service controller"
          aws_service_alias
          (L.bind_controller_manager
            (L.new_service_controller aws_service_alias aws_service_api_group factories) mgr
            ack_cfg)
    _ ←
        or_exit add_healthz_check "unable to set up health check" aws_service_alias
          (L.add_healthz_check mgr "health")
    _ ←
        or_exit add_readyz_check "unable to set up ready check" aws_service_alias
          (L.add_readyz_check mgr "check")
    _ ← logged (info "starting manager")
    or_exit start "unable to start controller manager" aws_service_alias (L.start mgr stop_chan)

  unfoldable pub main : Run L Unit
  main = do ack_cfg ← do_call L.config; mgr ← make_manager ack_cfg; run_manager ack_cfg mgr
