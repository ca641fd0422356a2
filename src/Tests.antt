-- ===== src/Tests.antt =====
-- Concrete inputs for the theorems, and small runs of the code.
pub mod Cluster
pub mod Registry
pub mod Config
pub mod Provisioner
pub mod Binding
pub mod Broker
pub mod Repeat
pub mod System
pub mod Crypto
pub mod Command
