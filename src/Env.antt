-- ===== src/Env.antt =====
-- pkg/resource/environment: the resource manager of MWAA environments, a module to a file or to a
-- group of its functions.
pub mod TagFields
pub mod Delta
pub mod Status
pub mod Calls
pub mod Hooks
pub mod Read
pub mod Payload
pub mod Write
pub mod Manage
pub mod LateInit
pub mod Reachable
pub mod References
pub mod Factory
pub mod Descriptor
pub mod Resource
