-- ===== src/Samples.antt =====
-- Concrete instances of what the model takes as parameters, with the proofs that they obey the
-- laws, and resources to try the definitions on. Only the modules of examples use them.
pub mod Faults
pub mod Maps
pub mod Comparators
pub mod Cloud
pub mod Resources
pub mod Echo
pub mod Finalizers
pub mod Tagging
pub mod Memory
pub mod Kinds
