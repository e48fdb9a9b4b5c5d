-- ===== src/DeepCopy/Boxes.antt =====
-- The types whose values are cells.
use mwaa_controller.Common.{refl, String, Bool, none, some, List}
use mwaa_controller.Common.Dict.{Dict}
use mwaa_controller.Common.Int.{ℤ}
use mwaa_controller.DeepCopy.Heap.{
  Foreign, Ptr, Box, Cell, EnvironmentStruct, EnvironmentListStruct,
}
use mwaa_controller.DeepCopy.Heap.{
  ModuleLogsStruct, LoggingStruct, NetworkStruct, UpdateErrorStruct, LastUpdateStruct,
}

module _ {F : Foreign} where
  abbrev pub text_box : Box F String
  text_box = record {
    put = Cell.text;
    get = λ c. elim c [ Cell.text x ↦ some x | _ ↦ none ];
    get-put = λ x. refl;
  }

  abbrev pub number_box : Box F ℤ
  number_box = record {
    put = Cell.number;
    get = λ c. elim c [ Cell.number x ↦ some x | _ ↦ none ];
    get-put = λ x. refl;
  }

  abbrev pub flag_box : Box F Bool
  flag_box = record {
    put = Cell.flag;
    get = λ c. elim c [ Cell.flag x ↦ some x | _ ↦ none ];
    get-put = λ x. refl;
  }

  abbrev pub slice_box : Box F (List Ptr)
  slice_box = record {
    put = Cell.slice;
    get = λ c. elim c [ Cell.slice x ↦ some x | _ ↦ none ];
    get-put = λ x. refl;
  }

  abbrev pub entries_box : Box F (Dict Ptr)
  entries_box = record {
    put = Cell.entries;
    get = λ c. elim c [ Cell.entries x ↦ some x | _ ↦ none ];
    get-put = λ x. refl;
  }

  abbrev pub module_logs_box : Box F ModuleLogsStruct
  module_logs_box = record {
    put = Cell.module_logs;
    get = λ c. elim c [ Cell.module_logs x ↦ some x | _ ↦ none ];
    get-put = λ x. refl;
  }

  abbrev pub logging_box : Box F LoggingStruct
  logging_box = record {
    put = Cell.logging;
    get = λ c. elim c [ Cell.logging x ↦ some x | _ ↦ none ];
    get-put = λ x. refl;
  }

  abbrev pub network_box : Box F NetworkStruct
  network_box = record {
    put = Cell.network;
    get = λ c. elim c [ Cell.network x ↦ some x | _ ↦ none ];
    get-put = λ x. refl;
  }

  abbrev pub update_error_box : Box F UpdateErrorStruct
  update_error_box = record {
    put = Cell.update_error;
    get = λ c. elim c [ Cell.update_error x ↦ some x | _ ↦ none ];
    get-put = λ x. refl;
  }

  abbrev pub last_update_box : Box F LastUpdateStruct
  last_update_box = record {
    put = Cell.last_update;
    get = λ c. elim c [ Cell.last_update x ↦ some x | _ ↦ none ];
    get-put = λ x. refl;
  }

  abbrev pub environment_box : Box F (EnvironmentStruct F)
  environment_box = record {
    put = Cell.environment;
    get = λ c. elim c [ Cell.environment x ↦ some x | _ ↦ none ];
    get-put = λ x. refl;
  }

  abbrev pub environments_box : Box F (List (EnvironmentStruct F))
  environments_box = record {
    put = Cell.environments;
    get = λ c. elim c [ Cell.environments x ↦ some x | _ ↦ none ];
    get-put = λ x. refl;
  }

  abbrev pub environment_list_box : Box F (EnvironmentListStruct F)
  environment_list_box = record {
    put = Cell.environment_list;
    get = λ c. elim c [ Cell.environment_list x ↦ some x | _ ↦ none ];
    get-put = λ x. refl;
  }

  abbrev pub wrapper_box : Box F F.Wrapper
  wrapper_box = record {
    put = Cell.wrapper;
    get = λ c. elim c [ Cell.wrapper x ↦ some x | _ ↦ none ];
    get-put = λ x. refl;
  }

  abbrev pub metadata_box : Box F F.Metadata
  metadata_box = record {
    put = Cell.metadata;
    get = λ c. elim c [ Cell.metadata x ↦ some x | _ ↦ none ];
    get-put = λ x. refl;
  }

  abbrev pub condition_box : Box F F.Condition
  condition_box = record {
    put = Cell.condition;
    get = λ c. elim c [ Cell.condition x ↦ some x | _ ↦ none ];
    get-put = λ x. refl;
  }

  abbrev pub stamp_box : Box F F.Stamp
  stamp_box = record {
    put = Cell.stamp;
    get = λ c. elim c [ Cell.stamp x ↦ some x | _ ↦ none ];
    get-put = λ x. refl;
  }
