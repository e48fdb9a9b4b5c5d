-- ===== src/Controller/Tests.antt =====
-- The start of the process over sample libraries, of which no webhook can be set up.
use mwaa_controller.Common.{suc, ℕ, String, true, false, ◌≡◌, refl, some, [], ◌∷◌, Result, ok, err}
use mwaa_controller.Ext.Process.{Config, Options, Libraries}
use mwaa_controller.Controller
use mwaa_controller.Controller.{
  Machine, main, do_call, make_manager, run_manager, or_exit, or_die, logged, set_up_webhook,
  set_up_webhooks,
}
use mwaa_controller.Controller.Script.{Ends, script}
use mwaa_controller.Controller.Order.{new_machine, main_ends}
use mwaa_controller.Controller.Success.{LibrariesSucceed, main_starts}

abbrev sample_config : Config
sample_config = record {
  webhook_server_addr = "0.0.0.0:9433";
  watch_namespace = "default";
  enable_webhook_server = true;
  metrics_addr = "0.0.0.0:8080";
  enable_leader_election = false;
  leader_election_namespace = "";
  healthz_addr = "0.0.0.0:8081";
}

-- The selectors of labels are read or not; the state counts the calls that change it.
abbrev libraries_where : Result String Unit → Libraries
libraries_where selectors = record {
  World = ℕ;
  Error = String;
  Scheme = Unit;
  Selectors = Unit;
  RestConfig = Unit;
  ManagerFactory = Unit;
  Kind = Unit;
  ControllerManager = Options Unit Unit;
  Context = Unit;
  Controller = Unit;
  Webhook = String;
  config = λ w. (sample_config, w);
  get_resource_manager_factories = λ w. tt ∷ [];
  group_version_kind = λ f. f;
  validate = λ c kinds w. (ok tt, w);
  get_host_port = λ address. ok ("0.0.0.0", 9433);
  get_watch_namespaces = λ c. ok (c.watch_namespace ∷ []);
  parse_watch_selectors = λ c. selectors;
  scheme = λ w. tt;
  get_config_or_die = λ w. (some tt, w);
  new_manager = λ r o w. (ok o, suc w);
  set_up_signal_handler = λ w. (tt, w);
  new_service_controller = λ alias group factories. tt;
  get_webhooks = "conversion" ∷ [];
  uid = λ webhook. webhook;
  set_up = λ webhook manager w. (err "no certificate", w);
  bind_controller_manager = λ controller manager c w. (ok tt, suc w);
  add_healthz_check = λ manager name w. (ok tt, suc w);
  add_readyz_check = λ manager name w. (ok tt, suc w);
  start = λ manager context w. (ok tt, suc w);
}

libraries_where-LibrariesSucceed : LibrariesSucceed (libraries_where (ok tt))
libraries_where-LibrariesSucceed = record {
  validate = λ c kinds w. (tt, refl);
  get_host_port = λ c. (_, refl);
  get_watch_namespaces = λ c. (_, refl);
  parse_watch_selectors = λ c. (tt, refl);
  get_config = λ w. (tt, refl);
  new_manager = λ r o w. (o, refl);
  bind_controller_manager = λ s m c w. (tt, refl);
  add_healthz_check = λ m name w. (tt, refl);
  add_readyz_check = λ m name w. (tt, refl);
  start = λ m c w. (tt, refl);
}

main_ends_example :
    Ends []
      (script {A = String} true ("conversion" ∷ []))
      (main {L = libraries_where (err "bad selector")} (new_machine _ 0)).0
      (main {L = libraries_where (err "bad selector")} (new_machine _ 0)).1
main_ends_example = main_ends (libraries_where (err "bad selector")) 0

-- That run exits.
selectors_refused : (main {L = libraries_where (err "bad selector")} (new_machine _ 0)).0 ≡ err 1
unfolding main do_call make_manager run_manager or_exit or_die logged set_up_webhook set_up_webhooks
    Controller.◌>>=◌
selectors_refused = refl

main_starts_example :
    ((main {L = libraries_where (ok tt)} (new_machine _ 0)).0 ≡ ok tt)
    × ((main {L = libraries_where (ok tt)} (new_machine _ 0)).1.calls
        ≡ script {A = String} true ("conversion" ∷ []))
main_starts_example = main_starts (libraries_where (ok tt)) 0 libraries_where-LibrariesSucceed
