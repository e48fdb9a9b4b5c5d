-- ===== src/Api/Enums.antt =====
-- The enumerations of apis/v1alpha1/enums.go that the controller compares with: the states of an
-- environment and of its last update.
use mwaa_controller.Common.{String}

-- `EnvironmentStatus_SDK`
pub data EnvironmentStatusSdk : Type 0 where
  creating : EnvironmentStatusSdk
  create_failed : EnvironmentStatusSdk
  available : EnvironmentStatusSdk
  updating : EnvironmentStatusSdk
  deleting : EnvironmentStatusSdk
  deleted : EnvironmentStatusSdk
  unavailable : EnvironmentStatusSdk
  update_failed : EnvironmentStatusSdk
  rolling_back : EnvironmentStatusSdk
  creating_snapshot : EnvironmentStatusSdk
  pending : EnvironmentStatusSdk
  maintenance : EnvironmentStatusSdk

abbrev pub status_text : EnvironmentStatusSdk → String
status_text creating = "CREATING"
status_text create_failed = "CREATE_FAILED"
status_text available = "AVAILABLE"
status_text updating = "UPDATING"
status_text deleting = "DELETING"
status_text deleted = "DELETED"
status_text unavailable = "UNAVAILABLE"
status_text update_failed = "UPDATE_FAILED"
status_text rolling_back = "ROLLING_BACK"
status_text creating_snapshot = "CREATING_SNAPSHOT"
status_text pending = "PENDING"
status_text maintenance = "MAINTENANCE"

-- `UpdateStatus`
pub data UpdateStatus : Type 0 where
  update_success : UpdateStatus
  update_pending : UpdateStatus
  update_failure : UpdateStatus

abbrev pub update_text : UpdateStatus → String
update_text update_success = "SUCCESS"
update_text update_pending = "PENDING"
update_text update_failure = "FAILED"
