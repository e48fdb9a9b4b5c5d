-- ===== src/Env/Calls.antt =====
-- Calls of the AWS API, each followed by `rm.metrics.RecordAPICall`.
use mwaa_controller.Common.{String, Option, none, some, List, [], ◌∷◌, ◌++◌, Result, ok, err}
use mwaa_controller.Ext.Errors.{Errors}
use mwaa_controller.Ext.Sdk.{Client}

-- `RecordAPICall(opType, opID, err)`
pub record ApiCall (E : Errors) : Type 0 where
  pub op_type : String
  pub op_id : String
  pub error : Option E.Error

-- What the calls change: the service, and the metrics.
pub record Cloud (E : Errors) (C : Client E) : Type 0 where
  pub world : C.World
  pub recorded : List (ApiCall E)

abbrev pub error_of : {X A : Type 0} → Result X A → Option X
error_of (ok _) = none
error_of (err e) = some e

module _ (E : Errors) (C : Client E) where
  abbrev pub recording : Cloud E C → C.World → String → String → Option E.Error → Cloud E C
  recording cloud world op_type op_id error = record {
    world = world;
    recorded = cloud.recorded ++ (record { op_type = op_type; op_id = op_id; error = error } ∷ []);
  }

  abbrev pub call :
      {A : Type 0}
      → String
      → String
      → (C.World → Result E.Error A × C.World)
      → Cloud E C
      → Result E.Error A × Cloud E C
  call op_type op_id f cloud =
      let (r, w) = f cloud.world in (r, recording cloud w op_type op_id (error_of r))
