-- ===== src/DeepCopy/Fields.antt =====
-- The structs without a struct of another repository.
use mwaa_controller.Api.{UpdateError}
use mwaa_controller.Api.{LoggingConfigurationInput, ModuleLoggingConfigurationInput}
use mwaa_controller.DeepCopy.Heap.{
  Foreign, Heap, ModuleLogsStruct, LoggingStruct, UpdateErrorStruct,
}
use mwaa_controller.DeepCopy.Into.{
  copy_text, copy_number, copy_flag, copy_map, copy_texts, copy_module_logs, copy_logging,
  copy_update_error,
}
use mwaa_controller.DeepCopy.Boxes.{
  text_box, number_box, flag_box, entries_box, slice_box, module_logs_box, logging_box,
  update_error_box,
}
use mwaa_controller.DeepCopy.Means.{
  TextAt, NumberAt, FlagAt, MapAt, TextsAt, ModuleLogsAt, LoggingAt, UpdateErrorAt,
}
use mwaa_controller.DeepCopy.Into.{copy_module_logs_into, copy_logging_into, copy_update_error_into}
use mwaa_controller.DeepCopy.Means.{ModuleLogsMeans, LoggingMeans, UpdateErrorMeans}
use mwaa_controller.DeepCopy.Runs.{Same}
use mwaa_controller.DeepCopy.Pointers.{
  Copied, field, ◌>>=◌, Later, pure_later, by_fields, plain, behind, each, every_entry,
}

module _ {F : Foreign} where
  pub field_text : Copied {F = F} TextAt copy_text
  field_text = behind text_box plain

  pub field_number : Copied {F = F} NumberAt copy_number
  field_number = behind number_box plain

  pub field_flag : Copied {F = F} FlagAt copy_flag
  field_flag = behind flag_box plain

  pub field_map : Copied {F = F} MapAt copy_map
  field_map = behind entries_box (every_entry field_text)

  pub field_texts : Copied {F = F} TextsAt copy_texts
  field_texts = behind slice_box (each field_text)

  module_logs-still :
      {h g : Heap F} (s : ModuleLogsStruct) (v : ModuleLoggingConfigurationInput)
      → Same 0 h g
      → ModuleLogsMeans h s v
      → ModuleLogsMeans g s v
  module_logs-still s v same m = record {
    enabled = field_flag.still s.enabled v.enabled same m.enabled;
    log_level = field_text.still s.log_level v.log_level same m.log_level;
  }

  module_logs-copies :
      (h : Heap F) (s : ModuleLogsStruct) (v : ModuleLoggingConfigurationInput)
      → ModuleLogsMeans h s v
      → Later h (copy_module_logs_into s) (λ g t. ModuleLogsMeans g t v)
  unfolding copy_module_logs_into
  module_logs-copies h s v m = do
    _ ← field s.enabled v.enabled field_flag m.enabled
    _ ← field s.log_level v.log_level field_text m.log_level
    pure_later _ λ g m2 m1. record { enabled = m1; log_level = m2 }

  pub module_logs-Copied : Copied {F = F} ModuleLogsMeans copy_module_logs_into
  module_logs-Copied = by_fields (λ h g. module_logs-still) module_logs-copies

  pub field_module_logs : Copied {F = F} ModuleLogsAt copy_module_logs
  field_module_logs = behind module_logs_box module_logs-Copied

  logging-still :
      {h g : Heap F} (s : LoggingStruct) (v : LoggingConfigurationInput)
      → Same 0 h g
      → LoggingMeans h s v
      → LoggingMeans g s v
  logging-still s v same m = record {
    dag_processing_logs =
        field_module_logs.still s.dag_processing_logs v.dag_processing_logs same
          m.dag_processing_logs;
    scheduler_logs =
        field_module_logs.still s.scheduler_logs v.scheduler_logs same m.scheduler_logs;
    task_logs = field_module_logs.still s.task_logs v.task_logs same m.task_logs;
    webserver_logs =
        field_module_logs.still s.webserver_logs v.webserver_logs same m.webserver_logs;
    worker_logs = field_module_logs.still s.worker_logs v.worker_logs same m.worker_logs;
  }

  logging-copies :
      (h : Heap F) (s : LoggingStruct) (v : LoggingConfigurationInput)
      → LoggingMeans h s v
      → Later h (copy_logging_into s) (λ g t. LoggingMeans g t v)
  unfolding copy_logging_into
  logging-copies h s v m = do
    _ ← field s.dag_processing_logs v.dag_processing_logs field_module_logs m.dag_processing_logs
    _ ← field s.scheduler_logs v.scheduler_logs field_module_logs m.scheduler_logs
    _ ← field s.task_logs v.task_logs field_module_logs m.task_logs
    _ ← field s.webserver_logs v.webserver_logs field_module_logs m.webserver_logs
    _ ← field s.worker_logs v.worker_logs field_module_logs m.worker_logs
    pure_later _ λ g m5 m4 m3 m2 m1. record {
      dag_processing_logs = m1;
      scheduler_logs = m2;
      task_logs = m3;
      webserver_logs = m4;
      worker_logs = m5;
    }

  pub logging-Copied : Copied {F = F} LoggingMeans copy_logging_into
  logging-Copied = by_fields (λ h g. logging-still) logging-copies

  pub field_logging : Copied {F = F} LoggingAt copy_logging
  field_logging = behind logging_box logging-Copied

  update_error-still :
      {h g : Heap F} (s : UpdateErrorStruct) (v : UpdateError)
      → Same 0 h g
      → UpdateErrorMeans h s v
      → UpdateErrorMeans g s v
  update_error-still s v same m = record {
    error_code = field_text.still s.error_code v.error_code same m.error_code;
    error_message = field_text.still s.error_message v.error_message same m.error_message;
  }

  update_error-copies :
      (h : Heap F) (s : UpdateErrorStruct) (v : UpdateError)
      → UpdateErrorMeans h s v
      → Later h (copy_update_error_into s) (λ g t. UpdateErrorMeans g t v)
  unfolding copy_update_error_into
  update_error-copies h s v m = do
    _ ← field s.error_code v.error_code field_text m.error_code
    _ ← field s.error_message v.error_message field_text m.error_message
    pure_later _ λ g m2 m1. record { error_code = m1; error_message = m2 }

  pub update_error-Copied : Copied {F = F} UpdateErrorMeans copy_update_error_into
  update_error-Copied = by_fields (λ h g. update_error-still) update_error-copies

  pub field_update_error : Copied {F = F} UpdateErrorAt copy_update_error
  field_update_error = behind update_error_box update_error-Copied
