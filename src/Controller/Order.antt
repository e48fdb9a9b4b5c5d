-- ===== src/Controller/Order.antt =====
-- Each part of `main` follows its script.
use mwaa_controller.Common.{String, Bool, true, false, if◌then◌else◌, ◌≡◌, refl, sym}
use mwaa_controller.Common.{Option, none, some, List, [], ◌∷◌, ◌++◌, Result, ok, err, inl, inr}
use mathlib.Core.List.{append-nil}
use mwaa_controller.Ext.Process.{Config, Libraries}
use mwaa_controller.Controller
use mwaa_controller.Controller.{
  Step, validate, get_host_port, get_watch_namespaces, parse_watch_selectors, get_config,
  new_manager, webhook_setup, bind_controller_manager, add_healthz_check, add_readyz_check, start,
}
use mwaa_controller.Controller
use mwaa_controller.Controller.{
  Entry, failure, info, Machine, Run, called, exit_on_error, exit_on_none, log_error, pure, do_call,
  logged, or_exit, or_die, set_up_webhook, set_up_webhooks, make_manager, run_manager, main,
}
use mwaa_controller.Controller.Script.{
  Follows, Ends, message, ends_process, script, manager_script, last_script, webhook_setups, ◌>>=◌,
}

module _ {L : Libraries} where
  pure_follows : {A : Type 0} (x : A) → Follows {L = L} (pure x) []
  pure_follows x = record {
    ends = λ m. inl (record { value = x; returns = refl; made = sym (append-nil m.calls) });
  }

  do_call_follows : {A : Type 0} (call : L.World → A × L.World) → Follows {L = L} (do_call call) []
  unfolding do_call
  do_call_follows call = record {
    ends = λ m.
        inl (record { value = (call m.world).0; returns = refl; made = sym (append-nil m.calls) });
  }

  logged_follows : (entry : Entry L.Error) → Follows {L = L} (logged entry) []
  unfolding logged
  logged_follows entry = record {
    ends = λ m. inl (record { value = tt; returns = refl; made = sym (append-nil m.calls) });
  }

  -- What a call that may fail comes to.
  exit_on_error-Ends :
      {A : Type 0} (before : List Step) (step : Step) (text service : String) (r : Result L.Error A)
      (m : Machine L)
      → message step ≡ some text
      → ends_process step ≡ true
      → m.calls ≡ before ++ (step ∷ [])
      → Ends before
          (step ∷ [])
          (exit_on_error text service r m).0
          (exit_on_error text service r m).1
  exit_on_error-Ends before step text service (ok x) m says fatal e =
      inl (record { value = x; returns = refl; made = e })
  exit_on_error-Ends before step text service (err e) m says fatal made = inr (record {
    earlier = [];
    failed = step;
    later = [];
    exits = refl;
    fatal = fatal;
    split = refl;
    made = made;
    reported = rw says (m.log, e, service, refl);
  })

  or_exit_follows :
      {A : Type 0} (step : Step) (text service : String)
      (call : L.World → Result L.Error A × L.World)
      → message step ≡ some text
      → ends_process step ≡ true
      → Follows {L = L} (or_exit step text service call) (step ∷ [])
  unfolding or_exit
  or_exit_follows step text service call says fatal = record {
    ends = λ m.
        exit_on_error-Ends m.calls step text service (call m.world).0
          (called step (call m.world).1 m) says fatal refl;
  }

  exit_on_none-Ends :
      {A : Type 0} (before : List Step) (step : Step) (r : Option A) (m : Machine L)
      → message step ≡ none
      → ends_process step ≡ true
      → m.calls ≡ before ++ (step ∷ [])
      → Ends before (step ∷ []) (exit_on_none r m).0 (exit_on_none r m).1
  exit_on_none-Ends before step (some x) m says fatal e =
      inl (record { value = x; returns = refl; made = e })
  exit_on_none-Ends before step none m says fatal made = inr (record {
    earlier = [];
    failed = step;
    later = [];
    exits = refl;
    fatal = fatal;
    split = refl;
    made = made;
    reported = rw says tt;
  })

  or_die_follows :
      {A : Type 0} (step : Step) (call : L.World → Option A × L.World)
      → message step ≡ none
      → ends_process step ≡ true
      → Follows {L = L} (or_die step call) (step ∷ [])
  unfolding or_die
  or_die_follows step call says fatal = record {
    ends = λ m.
        exit_on_none-Ends m.calls step (call m.world).0 (called step (call m.world).1 m) says fatal
          refl;
  }

  log_error-Ends :
      (before : List Step) (webhook : L.Webhook) (r : Result L.Error Unit) (m : Machine L)
      → m.calls ≡ before ++ (webhook_setup ∷ [])
      → Ends before (webhook_setup ∷ []) (log_error webhook r m).0 (log_error webhook r m).1
  log_error-Ends before webhook (ok x) m made =
      inl (record { value = tt; returns = refl; made = made })
  log_error-Ends before webhook (err e) m made =
      inl (record { value = tt; returns = refl; made = made })

  set_up_webhook_follows :
      (mgr : L.ControllerManager) (webhook : L.Webhook)
      → Follows {L = L} (set_up_webhook mgr webhook) (webhook_setup ∷ [])
  unfolding set_up_webhook
  set_up_webhook_follows mgr webhook = record {
    ends = λ m.
        log_error-Ends m.calls webhook (L.set_up webhook mgr m.world).0
          (called webhook_setup (L.set_up webhook mgr m.world).1 m) refl;
  }

  set_up_webhooks_follows :
      (mgr : L.ControllerManager) (webhooks : List L.Webhook)
      → Follows {L = L} (set_up_webhooks mgr webhooks) (webhook_setups webhooks)
  unfolding set_up_webhooks
  set_up_webhooks_follows mgr [] = pure_follows tt
  set_up_webhooks_follows mgr (webhook ∷ rest) = do
    _ ← set_up_webhook_follows mgr webhook
    set_up_webhooks_follows mgr rest

  webhooks_follow :
      (mgr : L.ControllerManager) (enabled : Bool)
      → Follows {L = L}
          (if enabled then set_up_webhooks mgr L.get_webhooks else pure tt)
          (if enabled then webhook_setups L.get_webhooks else [])
  webhooks_follow mgr true = set_up_webhooks_follows mgr L.get_webhooks
  webhooks_follow mgr false = pure_follows tt

  make_manager_follows : (ack_cfg : Config) → Follows {L = L} (make_manager ack_cfg) manager_script
  unfolding make_manager
  make_manager_follows ack_cfg = do
    _ ← do_call_follows _
    _ ← or_exit_follows validate _ _ _ refl refl
    _ ← or_exit_follows get_host_port _ _ _ refl refl
    _ ← or_exit_follows get_watch_namespaces _ _ _ refl refl
    _ ← or_exit_follows parse_watch_selectors _ _ _ refl refl
    _ ← or_die_follows get_config _ refl refl
    _ ← do_call_follows _
    or_exit_follows new_manager _ _ _ refl refl

  run_manager_follows :
      (ack_cfg : Config) (mgr : L.ControllerManager)
      → Follows {L = L} (run_manager ack_cfg mgr) (
          (if ack_cfg.enable_webhook_server then webhook_setups L.get_webhooks else [])
          ++ last_script)
  unfolding run_manager
  run_manager_follows ack_cfg mgr = do
    _ ← do_call_follows _
    _ ← logged_follows _
    _ ← do_call_follows _
    _ ← webhooks_follow mgr ack_cfg.enable_webhook_server
    _ ← or_exit_follows bind_controller_manager _ _ _ refl refl
    _ ← or_exit_follows add_healthz_check _ _ _ refl refl
    _ ← or_exit_follows add_readyz_check _ _ _ refl refl
    _ ← logged_follows _
    or_exit_follows start _ _ _ refl refl

  after_flags_follows :
      (ack_cfg : Config)
      → Follows {L = L}
          (Controller.◌>>=◌ (make_manager ack_cfg) (run_manager ack_cfg))
          (script ack_cfg.enable_webhook_server L.get_webhooks)
  after_flags_follows ack_cfg = do
    mgr ← make_manager_follows ack_cfg
    run_manager_follows ack_cfg mgr

-- The process at its start.
abbrev pub new_machine : (L : Libraries) → L.World → Machine L
new_machine L w = record { world = w; log = []; calls = [] }

-- `main` makes the calls of its script in order: validation of the flags, the address of webhooks,
-- the namespaces, the selectors, the configuration of the client, the manager, then one set-up for
-- each webhook if webhooks are enabled, the binding of the controller, the two checks, and the
-- start. Either it makes all of them and returns, or it exits with the status 1 right after one
-- that is not the set-up of a webhook and makes none of the later ones, and the last line of its
-- log is then the error of that call with its message, save for the call that reads the
-- configuration of the client, which logs by itself.
pub main_ends :
    (L : Libraries) (w : L.World)
    → Ends []
        (script (L.config w).0.enable_webhook_server L.get_webhooks)
        (main {L = L} (new_machine L w)).0
        (main {L = L} (new_machine L w)).1
unfolding main do_call Controller.◌>>=◌
main_ends L w =
    (after_flags_follows (L.config w).0).ends
      (record { world = (L.config w).1; log = []; calls = [] })
