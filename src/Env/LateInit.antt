-- ===== src/Env/LateInit.antt =====
-- `LateInitialize` of pkg/resource/environment/manager.go, with `lateInitializeFromReadOneOutput`
-- and `incompleteLateInitialization`.
pub mod Fields
mod Tests
use mwaa_controller.Common.{Bool, ◌||◌, Option, none, some, is_none, elements}
use mwaa_controller.Common.{if◌then◌else◌, Outcome, returns, panics, ◌>>=◌}
use mwaa_controller.Api.{Environment, status_true, status_false}
use mwaa_controller.Ext.Errors.{Errors}
use mwaa_controller.Ext.Sdk.{Client}
use mwaa_controller.Ext.Runtime.{Conditions, Pointers}
use mwaa_controller.Env.Calls.{Cloud}
use mwaa_controller.Env.Status.{Manager, Answer, with_conditions}
use mwaa_controller.Env.Manage.{read_one}

-- `if observed.F != nil && latest.F == nil { latest.F = observed.F }`
abbrev pub late : {X : Type 0} → Option X → Option X → Option X
late none latest = latest
late (some v) none = some v
late (some v) (some w) = some w

-- `lateInitializeFromReadOneOutput`
unfoldable pub late_initialize_from : Environment → Environment → Environment
late_initialize_from observed latest =
    let o = observed.spec in
    let l = latest.spec in
    record latest {
      spec = record l {
        airflow_version = late o.airflow_version l.airflow_version;
        endpoint_management = late o.endpoint_management l.endpoint_management;
        environment_class = late o.environment_class l.environment_class;
        logging_configuration = late o.logging_configuration l.logging_configuration;
        max_webservers = late o.max_webservers l.max_webservers;
        max_workers = late o.max_workers l.max_workers;
        min_webservers = late o.min_webservers l.min_webservers;
        min_workers = late o.min_workers l.min_workers;
        schedulers = late o.schedulers l.schedulers;
        webserver_access_mode = late o.webserver_access_mode l.webserver_access_mode;
        weekly_maintenance_window_start =
            late o.weekly_maintenance_window_start l.weekly_maintenance_window_start;
      };
    }

-- `incompleteLateInitialization`
unfoldable pub incomplete_late_initialization : Environment → Bool
incomplete_late_initialization r =
    let s = r.spec in
    is_none s.airflow_version
    || (is_none s.endpoint_management
        || (is_none s.environment_class
            || (is_none s.logging_configuration
                || (is_none s.max_webservers
                    || (is_none s.max_workers
                        || (is_none s.min_webservers
                            || (is_none s.min_workers
                                || (is_none s.schedulers
                                    || (is_none s.webserver_access_mode
                                        || is_none s.weekly_maintenance_window_start)))))))))

module _ (E : Errors) (K : Conditions) where
  abbrev pub requeue_in_5_seconds : E.Error
  requeue_in_5_seconds = E.needed_after none 5000000000

  -- After a failed read, on the copy that was read for.
  unfoldable pub read_failed : Environment → Environment
  read_failed copy =
      let cs =
        K.set_late_initialized (elements copy.status.conditions) status_false
          (some "Unable to complete Read operation required for late initialization")
          (some "Late Initialization Failure") in
      with_conditions copy (K.set_synced cs status_false none none)

  -- After the fields are filled.
  unfoldable pub finish_late : Environment → Environment × Option E.Error
  finish_late r =
      let cs = elements r.status.conditions in
      if incomplete_late_initialization r
      then (
        with_conditions r (
            K.set_synced
              (K.set_late_initialized cs status_false
                (some "Late initialization did not complete, requeuing with delay of 5 seconds")
                (some "Delayed Late Initialization"))
              status_false none none),
        some requeue_in_5_seconds,
      )
      else (
        with_conditions r (
            K.set_late_initialized cs status_true (some "Late initialization successful")
              (some "Late initialization successful")),
        none,
      )

  -- From the answer of `ReadOne` on, with the copy as `ReadOne` left it.
  abbrev pub after_read : Answer E × Environment → Outcome (Environment × Option E.Error)
  after_read ((observed, some e), copy) = returns (read_failed copy, some e)
  after_read ((none, none), copy) = panics "nil pointer dereference"
  after_read ((some observed, none), copy) =
      returns (finish_late (late_initialize_from observed copy))

  -- `LateInitialize`; the list of the field names is not empty.
  unfoldable pub late_initialize :
      (rm : Manager) (P : Pointers) (C : Client E)
      → Environment
      → Cloud E C
      → Outcome (Environment × Option E.Error) × Cloud E C
  late_initialize rm P C latest cloud =
      let (read, cloud') = read_one E rm K P C (some latest) cloud in (read >>= after_read, cloud')
