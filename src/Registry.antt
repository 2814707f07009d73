-- ===== src/Registry.antt =====
-- The oracle registry contract, packages/oracles-smartweave-contracts/src/contracts.
pub mod State
pub mod Common
pub mod Nodes
pub mod DataServices
pub mod Contract
pub mod Ownership
pub mod References
pub mod Lifecycle
pub mod Pages
mod Examples
