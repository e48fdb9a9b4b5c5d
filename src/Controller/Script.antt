-- ===== src/Controller/Script.antt =====
-- The order of the calls of `main`, and how it ends.
use mwaa_controller.Common.{ℕ, String, Bool, true, false, if◌then◌else◌, ◌≡◌, sym, ◌∙◌, ap}
use mwaa_controller.Common.{Option, none, some, List, [], ◌∷◌, ◌++◌, Result, ok, err, ◌⊎◌, inl, inr}
use mathlib.Core.List.{append_assoc}
use mwaa_controller.Ext.Process.{Libraries}
use mwaa_controller.Controller
use mwaa_controller.Controller.{
  Step, validate, get_host_port, get_watch_namespaces, parse_watch_selectors, get_config,
  new_manager, webhook_setup, bind_controller_manager, add_healthz_check, add_readyz_check, start,
}
use mwaa_controller.Controller.{
  Entry, failure, info, Machine, Run, resume, pure, do_call, logged, or_exit, or_die,
  set_up_webhook, set_up_webhooks, make_manager, run_manager, main,
}

-- One call of each webhook.
abbrev pub webhook_setups : {A : Type 0} → List A → List Step
webhook_setups [] = []
webhook_setups (webhook ∷ rest) = webhook_setup ∷ webhook_setups rest

abbrev pub manager_script : List Step
manager_script =
    validate ∷ get_host_port ∷ get_watch_namespaces ∷ parse_watch_selectors ∷ get_config
    ∷ new_manager ∷ []

abbrev pub last_script : List Step
last_script = bind_controller_manager ∷ add_healthz_check ∷ add_readyz_check ∷ start ∷ []

-- What `main` calls where no call fails.
abbrev pub script : {A : Type 0} → Bool → List A → List Step
script enabled webhooks =
    manager_script ++ ((if enabled then webhook_setups webhooks else []) ++ last_script)

-- What is logged before the process exits because of a call. `GetConfigOrDie` logs by itself, and
-- webhooks do not make the process exit.
abbrev pub message : Step → Option String
message validate = some "Unable to create controller manager"
message get_host_port = some "Unable to parse webhook server address."
message get_watch_namespaces = some "Unable to parse watch namespaces."
message parse_watch_selectors = some "Unable to parse watch selectors."
message get_config = none
message new_manager = some "unable to create controller manager"
message webhook_setup = none
message bind_controller_manager = some "unable bind to controller manager to service controller"
message add_healthz_check = some "unable to set up health check"
message add_readyz_check = some "unable to set up ready check"
message start = some "unable to start controller manager"

-- A call of a webhook is the only one whose error does not end the process.
abbrev pub ends_process : Step → Bool
ends_process webhook_setup = false
ends_process _ = true

-- The last line of the log is the error of a call.
abbrev pub Reported : {E : Type 0} → Option String → List (Entry E) → Type 0
Reported none log = Unit
Reported {E} (some text) log =
    (before : List (Entry E)) × (e : E) × (service : String) × (log
      ≡ before ++ (failure e text service ∷ []))

module _ {L : Libraries} where
  pub record Completed {A : Type 0} (before todo : List Step) (r : Result ℕ A) (m : Machine L)
      : Type 0 where
    pub value : A
    pub returns : r ≡ ok value
    pub made : m.calls ≡ before ++ todo

  pub record Stopped {A : Type 0} (before todo : List Step) (r : Result ℕ A) (m : Machine L)
      : Type 0 where
    pub earlier : List Step
    pub failed : Step
    pub later : List Step
    pub exits : r ≡ err 1
    pub fatal : ends_process failed ≡ true
    pub split : todo ≡ earlier ++ (failed ∷ later)
    pub made : m.calls ≡ before ++ (earlier ++ (failed ∷ []))
    pub reported : Reported (message failed) m.log

  abbrev pub Ends : {A : Type 0} → List Step → List Step → Result ℕ A → Machine L → Type 0
  Ends before todo r m = Completed before todo r m ⊎ Stopped before todo r m

  -- A part of `main` that makes these calls.
  pub record Follows {A : Type 0} (run : Run L A) (todo : List Step) : Type 0 where
    pub ends : (m : Machine L) → Ends m.calls todo (run m).0 (run m).1

  -- More calls, after some that were made.
  longer :
      {B : Type 0} {before made : List Step} (first : List Step) {next : List Step} {q : Result ℕ B}
      {k : Machine L}
      → made ≡ before ++ first
      → Ends made next q k
      → Ends before (first ++ next) q k
  longer {before} first {next} e (inl c) = inl (record {
    value = c.value;
    returns = c.returns;
    made = c.made ∙ ap (λ z. z ++ next) e ∙ append_assoc before first next;
  })
  longer {before} first {next} e (inr s) = inr (record {
    earlier = first ++ s.earlier;
    failed = s.failed;
    later = s.later;
    exits = s.exits;
    fatal = s.fatal;
    split = ap (λ z. first ++ z) s.split ∙ sym (append_assoc first s.earlier (s.failed ∷ s.later));
    made =
        s.made
        ∙ ap (λ z. z ++ (s.earlier ++ (s.failed ∷ []))) e
        ∙ append_assoc before first (s.earlier ++ (s.failed ∷ []))
        ∙ ap (λ z. before ++ z) (sym (append_assoc first s.earlier (s.failed ∷ [])));
    reported = s.reported;
  })

  after :
      {A B : Type 0} {before first later : List Step} (r : Result ℕ A) (m : Machine L)
      (next : A → Run L B)
      → Ends before first r m
      → ((x : A) → Follows (next x) later)
      → Ends before (first ++ later) (resume (r, m) next).0 (resume (r, m) next).1
  after {first} (ok x) m next (inl c) f = longer first c.made ((f x).ends m)
  after {before} {first} {later} (err status) m next (inr s) f = inr (record {
    earlier = s.earlier;
    failed = s.failed;
    later = s.later ++ later;
    exits = cc s.exits;
    fatal = s.fatal;
    split = ap (λ z. z ++ later) s.split ∙ append_assoc s.earlier (s.failed ∷ s.later) later;
    made = s.made;
    reported = s.reported;
  })
  after (ok x) m next (inr s) f = cc s.exits
  after (err status) m next (inl c) f = cc c.returns

  infixl 5 ◌>>=◌
  pub ◌>>=◌ :
      {A B : Type 0} {run : Run L A} {next : A → Run L B} {first later : List Step}
      → Follows run first
      → ((x : A) → Follows (next x) later)
      → Follows (Controller.◌>>=◌ run next) (first ++ later)
  unfolding Controller.◌>>=◌
  ◌>>=◌ {run} {next} f g = record { ends = λ m. after (run m).0 (run m).1 next (f.ends m) g }
