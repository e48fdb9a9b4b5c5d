-- ===== src/Controller/Success.antt =====
-- A start in which no call fails but those of webhooks.
use mwaa_controller.Common.{ℕ, String, Bool, true, false, if◌then◌else◌, ◌≡◌, refl}
use mwaa_controller.Common.{Option, none, some, List, [], ◌∷◌, Result, ok, err, inl, inr}
use mwaa_controller.Ext.Process.{Config, Options, Libraries}
use mwaa_controller.Controller
use mwaa_controller.Controller.{
  Step, Entry, Machine, Run, resume, called, exit_on_error, exit_on_none, log_error, pure, do_call,
  logged, or_exit, or_die, set_up_webhook, set_up_webhooks, make_manager, run_manager, main,
}
use mwaa_controller.Controller.Script.{script}
use mwaa_controller.Controller.Order.{new_machine, main_ends}

-- The call gives a value, whatever the state.
abbrev pub Succeeds : {W E A : Type 0} → (W → Result E A × W) → Type 0
Succeeds {W} {E} {A} call = (w : W) → (x : A) × ((call w).0 ≡ ok x)

pub record LibrariesSucceed (L : Libraries) : Type 0 where
  pub validate : (c : Config) (kinds : List L.Kind) → Succeeds (L.validate c kinds)
  pub get_host_port :
      (c : Config) → (x : String × ℕ) × (L.get_host_port c.webhook_server_addr ≡ ok x)
  pub get_watch_namespaces : (c : Config) → (x : List String) × (L.get_watch_namespaces c ≡ ok x)
  pub parse_watch_selectors : (c : Config) → (x : L.Selectors) × (L.parse_watch_selectors c ≡ ok x)
  pub get_config : (w : L.World) → (x : L.RestConfig) × ((L.get_config_or_die w).0 ≡ some x)
  pub new_manager :
      (r : L.RestConfig) (o : Options L.Scheme L.Selectors) → Succeeds (L.new_manager r o)
  pub bind_controller_manager :
      (s : L.Controller) (m : L.ControllerManager) (c : Config)
      → Succeeds (L.bind_controller_manager s m c)
  pub add_healthz_check :
      (m : L.ControllerManager) (name : String) → Succeeds (L.add_healthz_check m name)
  pub add_readyz_check :
      (m : L.ControllerManager) (name : String) → Succeeds (L.add_readyz_check m name)
  pub start : (m : L.ControllerManager) (c : L.Context) → Succeeds (L.start m c)

module _ {L : Libraries} where
  -- A part of `main` that does not exit.
  pub record Passes {A : Type 0} (run : Run L A) : Type 0 where
    pub passes : (m : Machine L) → (x : A) × ((run m).0 ≡ ok x)

  resume_passes :
      {A B : Type 0} (r : Result ℕ A) (m : Machine L) (next : A → Run L B) (x : A)
      → r ≡ ok x
      → ((y : A) → Passes (next y))
      → (y : B) × ((resume (r, m) next).0 ≡ ok y)
  resume_passes (ok y) m next x e f = (f y).passes m
  resume_passes (err s) m next x e f = cc e

  infixl 5 ◌>>=◌
  ◌>>=◌ :
      {A B : Type 0} {run : Run L A} {next : A → Run L B}
      → Passes run
      → ((x : A) → Passes (next x))
      → Passes (Controller.◌>>=◌ run next)
  unfolding Controller.◌>>=◌
  ◌>>=◌ {run} {next} p f = record {
    passes = λ m. let (x, e) = p.passes m in resume_passes (run m).0 (run m).1 next x e f;
  }

  do_call_passes : {A : Type 0} (call : L.World → A × L.World) → Passes (do_call call)
  unfolding do_call
  do_call_passes call = record { passes = λ m. ((call m.world).0, refl) }

  logged_passes : (entry : Entry L.Error) → Passes (logged entry)
  unfolding logged
  logged_passes entry = record { passes = λ m. (tt, refl) }

  exit_on_error-ok :
      {A : Type 0} (text service : String) (r : Result L.Error A) (m : Machine L) (x : A)
      → r ≡ ok x
      → (exit_on_error text service r m).0 ≡ ok x
  exit_on_error-ok text service (ok y) m x e = cc e
  exit_on_error-ok text service (err s) m x e = cc e

  or_exit_passes :
      {A : Type 0} (step : Step) (text service : String)
      (call : L.World → Result L.Error A × L.World)
      → Succeeds call
      → Passes (or_exit step text service call)
  unfolding or_exit
  or_exit_passes step text service call s = record {
    passes = λ m.
        let (x, e) = s m.world in
        (x, exit_on_error-ok text service (call m.world).0 (called step (call m.world).1 m) x e);
  }

  exit_on_none-some :
      {A : Type 0} (r : Option A) (m : Machine L) (x : A) → r ≡ some x → (exit_on_none r m).0 ≡ ok x
  exit_on_none-some (some y) m x e = cc e
  exit_on_none-some none m x e = cc e

  or_die_passes :
      {A : Type 0} (step : Step) (call : L.World → Option A × L.World)
      → ((w : L.World) → (x : A) × ((call w).0 ≡ some x))
      → Passes (or_die step call)
  unfolding or_die
  or_die_passes step call s = record {
    passes = λ m.
        let (x, e) = s m.world in
        (x, exit_on_none-some (call m.world).0 (called step (call m.world).1 m) x e);
  }

  log_error-ok :
      (webhook : L.Webhook) (r : Result L.Error Unit) (m : Machine L)
      → (log_error webhook r m).0 ≡ ok tt
  log_error-ok webhook (ok x) m = refl
  log_error-ok webhook (err e) m = refl

  set_up_webhook_passes :
      (mgr : L.ControllerManager) (webhook : L.Webhook) → Passes (set_up_webhook mgr webhook)
  unfolding set_up_webhook
  set_up_webhook_passes mgr webhook = record {
    passes = λ m. (tt, log_error-ok webhook (L.set_up webhook mgr m.world).0 _);
  }

  set_up_webhooks_passes :
      (mgr : L.ControllerManager) (webhooks : List L.Webhook)
      → Passes (set_up_webhooks mgr webhooks)
  unfolding set_up_webhooks
  set_up_webhooks_passes mgr [] = record { passes = λ m. (tt, refl) }
  set_up_webhooks_passes mgr (webhook ∷ rest) = do
    _ ← set_up_webhook_passes mgr webhook
    set_up_webhooks_passes mgr rest

  webhooks_pass :
      (mgr : L.ControllerManager) (enabled : Bool)
      → Passes (if enabled then set_up_webhooks mgr L.get_webhooks else pure tt)
  webhooks_pass mgr true = set_up_webhooks_passes mgr L.get_webhooks
  webhooks_pass mgr false = record { passes = λ m. (tt, refl) }

  module _ (S : LibrariesSucceed L) where
    make_manager_passes : (ack_cfg : Config) → Passes (make_manager ack_cfg)
    unfolding make_manager
    make_manager_passes ack_cfg = do
      _ ← do_call_passes _
      _ ← or_exit_passes _ _ _ _ (S.validate ack_cfg _)
      _ ← or_exit_passes _ _ _ _ (λ w. S.get_host_port ack_cfg)
      _ ← or_exit_passes _ _ _ _ (λ w. S.get_watch_namespaces ack_cfg)
      _ ← or_exit_passes _ _ _ _ (λ w. S.parse_watch_selectors ack_cfg)
      rest_config ← or_die_passes _ _ S.get_config
      _ ← do_call_passes _
      or_exit_passes _ _ _ _ (S.new_manager rest_config _)

    run_manager_passes :
        (ack_cfg : Config) (mgr : L.ControllerManager) → Passes (run_manager ack_cfg mgr)
    unfolding run_manager
    run_manager_passes ack_cfg mgr = do
      stop_chan ← do_call_passes _
      _ ← logged_passes _
      _ ← do_call_passes _
      _ ← webhooks_pass mgr ack_cfg.enable_webhook_server
      _ ← or_exit_passes _ _ _ _ (S.bind_controller_manager _ mgr ack_cfg)
      _ ← or_exit_passes _ _ _ _ (S.add_healthz_check mgr _)
      _ ← or_exit_passes _ _ _ _ (S.add_readyz_check mgr _)
      _ ← logged_passes _
      or_exit_passes _ _ _ _ (S.start mgr stop_chan)

    main_passes : Passes main
    unfolding main
    main_passes = do
      ack_cfg ← do_call_passes _
      mgr ← make_manager_passes ack_cfg
      run_manager_passes ack_cfg mgr

-- If no call of a library fails but those that set up webhooks, `main` starts the manager and
-- returns: it makes every call of its script, and an error of a webhook does not stop it.
pub main_starts :
    (L : Libraries) (w : L.World)
    → LibrariesSucceed L
    → ((main {L = L} (new_machine L w)).0 ≡ ok tt)
      × ((main {L = L} (new_machine L w)).1.calls
          ≡ script (L.config w).0.enable_webhook_server L.get_webhooks)
main_starts L w S =
    let (x, e) = (main_passes S).passes (new_machine L w) in
    elim (main_ends L w) [ inl c ↦ (e, c.made) | inr s ↦ cc (e, s.exits) ]
