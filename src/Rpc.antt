-- ===== src/Rpc.antt =====
-- RPC providers, packages/rpc-providers/src.
pub mod Agreement
pub mod Votes
pub mod MostVotes
pub mod Outcome
pub mod Settled
pub mod Justified
pub mod Finished
pub mod Broadcast
pub mod TxDelivery
pub mod Delivery
pub mod Attempts
pub mod CuratedList
pub mod Quarantine
pub mod BlockNumbers
pub mod Monotone
mod Examples
mod ProviderExamples
mod DeliveryExamples
