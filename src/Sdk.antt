-- ===== src/Sdk.antt =====
-- The SDK, packages/sdk/src, beyond what the relayer's part has of it.
pub mod ResponseCache
pub mod Closest
pub mod Sorting
pub mod Picking
pub mod Requests
pub mod Validated
pub mod FeedResults
pub mod Response
pub mod Gateways
pub mod MostRecent
pub mod Gathered
mod Examples
mod RequestExamples
