-- ===== src/Samples/Cloud.antt =====
-- Instances of `Client`, `Conditions` and `Deltas`.
use mwaa_controller.Common.{
  String, ◌==◌, string_eq, Bool, false, not, Option, some, List, [], ◌∷◌, ◌++◌,
}
use mwaa_controller.Common.{Result, ok, ◌||◌, if◌then◌else◌}
use mwaa_controller.Api.{Condition, ConditionType, is_resource_synced, resource_synced, other}
use mwaa_controller.Ext.Sdk.{Client, SdkEnvironment}
use mwaa_controller.Ext.Compare.{Deltas, Difference}
use mwaa_controller.Ext.Runtime.{Conditions}
use mwaa_controller.Env.Calls.{Cloud}
use mwaa_controller.Samples.Faults.{Fault, faults}

-- A service that answers GetEnvironment as its world says, creates and updates under one ARN, and
-- never fails.
abbrev pub sample_client : Client faults
sample_client = record {
  World = Result Fault (Option SdkEnvironment);
  get_environment = λ name world. (world, world);
  create_environment =
      λ input world. (ok (some "arn:aws:mwaa:us-west-2:1:environment/prod"), world);
  update_environment =
      λ input world. (ok (some "arn:aws:mwaa:us-west-2:1:environment/prod"), world);
  delete_environment = λ name world. (ok tt, world);
  tag_resource = λ arn tags world. (ok tt, world);
  untag_resource = λ arn keys world. (ok tt, world);
}

abbrev pub cloud_of : Result Fault (Option SdkEnvironment) → Cloud faults sample_client
cloud_of answer = record { world = answer; recorded = [] }

-- The first condition of the type is changed, or one is appended.
abbrev pub set_kind : (ConditionType → Bool) → Condition → List Condition → List Condition
set_kind p c [] = c ∷ []
set_kind p c (d ∷ cs) = if p d.kind then c ∷ cs else d ∷ set_kind p c cs

abbrev pub is_late_initialized : ConditionType → Bool
is_late_initialized (other s) = s == "ACK.LateInitialized"
is_late_initialized _ = false

abbrev pub sample_conditions : Conditions
sample_conditions = record {
  set_synced = λ cs status message reason.
      set_kind is_resource_synced
        (record { kind = resource_synced; status = status; message = message; reason = reason }) cs;
  set_late_initialized = λ cs status message reason.
      set_kind is_late_initialized
        (record {
          kind = other "ACK.LateInitialized";
          status = status;
          message = message;
          reason = reason;
        })
        cs;
}

-- The tags are at their own path, so equal paths are all that these deltas look for.
abbrev pub some_at : String → List Difference → Bool
some_at path [] = false
some_at path (x ∷ xs) = path == x.path || some_at path xs

abbrev pub some_except : String → List Difference → Bool
some_except path [] = false
some_except path (x ∷ xs) = not (path == x.path) || some_except path xs

abbrev pub sample_deltas : Deltas
sample_deltas = record {
  Delta = List Difference;
  new_delta = [];
  add = λ d x. d ++ (x ∷ []);
  different_at = λ d path. some_at path d;
  different_except = λ d path. some_except path d;
}
