-- ===== src/DeepCopy/Into.antt =====
-- The functions of apis/v1alpha1/zz_generated.deepcopy.go. A `DeepCopyInto` returns what it writes to
-- `out`. `new` and `make` come together with the write that follows them, so a cell is taken after
-- those that its contents point to.
use mwaa_controller.Common.{none, some, List, [], ◌∷◌}
use mwaa_controller.Common.Dict.{Dict}
use mwaa_controller.DeepCopy.Heap.{Foreign, Ptr, Run, Box, pure, ◌>>=◌, load, store_new}
use mwaa_controller.DeepCopy.Heap.{ModuleLogsStruct, LoggingStruct, UpdateErrorStruct}
use mwaa_controller.DeepCopy.Boxes.{
  text_box, number_box, flag_box, slice_box, entries_box, module_logs_box, logging_box,
  update_error_box,
}

-- The `DeepCopyInto` of the structs of other repositories, and `DeepCopy` of `*metav1.Time`.
pub record Copies (F : Foreign) : Type 0 where
  pub copy_wrapper : F.Wrapper → Run F F.Wrapper
  pub copy_metadata : F.Metadata → Run F F.Metadata
  pub copy_condition : F.Condition → Run F F.Condition
  pub deep_copy_stamp : Ptr → Run F Ptr
  pub copy_object_meta : F.ObjectMeta → Run F F.ObjectMeta
  pub copy_list_meta : F.ListMeta → Run F F.ListMeta

module _ {F : Foreign} where
  -- `if in.X != nil { *out = new(T); (*in).DeepCopyInto(*out) }`
  abbrev pub copy_ptr : {A : Type 0} → Box F A → (A → Run F A) → Ptr → Run F Ptr
  copy_ptr box copy_into none = pure none
  copy_ptr box copy_into (some a) = do
    x ← load box a
    y ← copy_into x
    b ← store_new box y
    pure (some b)

  -- `if in.X != nil { *out = (*in).DeepCopy() }`
  abbrev pub copy_given : (Ptr → Run F Ptr) → Ptr → Run F Ptr
  copy_given copy none = pure none
  copy_given copy (some a) = copy (some a)

  -- `for i := range *in { if (*in)[i] != nil { … } }`
  abbrev pub copy_each : {A : Type 0} → (A → Run F A) → List A → Run F (List A)
  copy_each copy [] = pure []
  copy_each copy (p ∷ ps) = do q ← copy p; qs ← copy_each copy ps; pure (q ∷ qs)

  -- `for key, val := range *in { … (*out)[key] = outVal }`
  abbrev pub copy_entries : (Ptr → Run F Ptr) → Dict Ptr → Run F (Dict Ptr)
  copy_entries copy [] = pure []
  copy_entries copy ((key, val) ∷ rest) = do
    out_val ← copy val
    rest' ← copy_entries copy rest
    pure ((key, out_val) ∷ rest')

  -- `**out = **in` of a type without pointers
  abbrev pub copy_text : Ptr → Run F Ptr
  copy_text = copy_ptr text_box pure

  abbrev pub copy_number : Ptr → Run F Ptr
  copy_number = copy_ptr number_box pure

  abbrev pub copy_flag : Ptr → Run F Ptr
  copy_flag = copy_ptr flag_box pure

  -- `map[string]*string` and `[]*string`
  abbrev pub copy_map : Ptr → Run F Ptr
  copy_map = copy_ptr entries_box (copy_entries copy_text)

  abbrev pub copy_texts : Ptr → Run F Ptr
  copy_texts = copy_ptr slice_box (copy_each copy_text)

  -- `ModuleLoggingConfigurationInput.DeepCopyInto`
  unfoldable pub copy_module_logs_into : ModuleLogsStruct → Run F ModuleLogsStruct
  copy_module_logs_into s = do
    enabled' ← copy_flag s.enabled
    log_level' ← copy_text s.log_level
    pure (record { enabled = enabled'; log_level = log_level' })

  abbrev pub copy_module_logs : Ptr → Run F Ptr
  copy_module_logs = copy_ptr module_logs_box copy_module_logs_into

  -- `LoggingConfigurationInput.DeepCopyInto`
  unfoldable pub copy_logging_into : LoggingStruct → Run F LoggingStruct
  copy_logging_into s = do
    dag_processing_logs' ← copy_module_logs s.dag_processing_logs
    scheduler_logs' ← copy_module_logs s.scheduler_logs
    task_logs' ← copy_module_logs s.task_logs
    webserver_logs' ← copy_module_logs s.webserver_logs
    worker_logs' ← copy_module_logs s.worker_logs
    pure (record {
      dag_processing_logs = dag_processing_logs';
      scheduler_logs = scheduler_logs';
      task_logs = task_logs';
      webserver_logs = webserver_logs';
      worker_logs = worker_logs';
    })

  abbrev pub copy_logging : Ptr → Run F Ptr
  copy_logging = copy_ptr logging_box copy_logging_into

  -- `UpdateError.DeepCopyInto`
  unfoldable pub copy_update_error_into : UpdateErrorStruct → Run F UpdateErrorStruct
  copy_update_error_into s = do
    error_code' ← copy_text s.error_code
    error_message' ← copy_text s.error_message
    pure (record { error_code = error_code'; error_message = error_message' })

  abbrev pub copy_update_error : Ptr → Run F Ptr
  copy_update_error = copy_ptr update_error_box copy_update_error_into
