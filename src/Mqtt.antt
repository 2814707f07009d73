-- ===== src/Mqtt.antt =====
-- The clients of the message broker, packages/mqtt5-client/src.
pub mod PubSub
pub mod Fill
pub mod Replay
pub mod Opening
pub mod Subscriptions
pub mod ReleaseCalls
pub mod ReleaseReplay
pub mod Release
pub mod Publish
pub mod CircuitBreaker
pub mod FeedState
pub mod Subscriber
mod Examples
mod Chunks
