-- ===== src/Relayer.antt =====
-- The on-chain relayer, packages/on-chain-relayer/src, with what it takes from packages/sdk/src.
pub mod Config
pub mod Naturals
pub mod Packages
pub mod Historical
pub mod Deviation
pub mod Conditions
pub mod MultiFeed
pub mod Rounds
pub mod Newer
pub mod ExtraFeeds
pub mod Additions
pub mod Inclusion
pub mod OperationQueue
pub mod Drain
pub mod PriceFeeds
pub mod Due
pub mod LastFeed
pub mod Iteration
pub mod Override
mod Samples
mod Examples
mod DueExamples
