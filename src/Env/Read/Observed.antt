-- ===== src/Env/Read/Observed.antt =====
-- What `sdkFind` leaves as it was in the resource that it reads for.
use mwaa_controller.Common.{◌≡◌, inl, inr, Option-cases}
use mwaa_controller.Api.{Environment}
use mwaa_controller.Ext.Sdk.{SdkEnvironment}
use mwaa_controller.Ext.Runtime.{Pointers}
use mwaa_controller.Env.Status.{Manager, set_status_defaults}
use mwaa_controller.Env.Status.Reports.{conditions_of}
use mwaa_controller.Env.Read.{observe, set_output, read_status}

-- The observed resource carries the argument's conditions.
pub observe-conditions :
    (P : Pointers) (rm : Manager) (r : Environment) (env : SdkEnvironment)
    → conditions_of (observe P rm r env) ≡ conditions_of r
unfolding observe set_output read_status set_status_defaults
observe-conditions P rm r env = elim (Option-cases r.spec.airflow_configuration_options) [
  | inl without ↦ rw without
  | inr (o, with_options) ↦ rw with_options
]
