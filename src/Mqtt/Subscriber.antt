-- ===== src/Mqtt/Subscriber.antt =====
-- DataPackageSubscriber.ts, of packages/mqtt5-client/src.
pub mod State
pub mod Publishing
pub mod Receiving
pub mod Reaction
pub mod Quorums
pub mod Timing
pub mod Events
pub mod Fallback
pub mod Contract
pub mod Prepared
pub mod Stores
pub mod Soundness
pub mod SoundPublish
pub mod SoundAdd
pub mod SoundStore
pub mod SoundReceive
pub mod Refinement
pub mod Order
pub mod Repeats
mod Examples
