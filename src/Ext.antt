-- ===== src/Ext.antt =====
-- What the controller uses and this repository does not hold: Go error values with the AWS and ACK
-- error helpers (`Errors`), the AWS client (`Sdk`), the comparators and the `Delta` of the ACK
-- runtime (`Compare`), and its helpers on conditions and tags (`Runtime`). Each is a record of
-- operations that the model takes as a parameter, and beside it a record of the laws that the
-- theorems assume of it.
pub mod Errors
pub mod Sdk
pub mod Compare
pub mod Runtime
pub mod Kubernetes
pub mod Controllerutil
pub mod Process
