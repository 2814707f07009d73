-- ===== src/Protocol.antt =====
-- The serialization of oracle data, packages/protocol/src.
pub mod Platform
pub mod Constants
pub mod Convert
pub mod DataPoint
pub mod DataPackage
pub mod Payload
pub mod Parser
pub mod Slices
pub mod Canonical
pub mod Sorted
pub mod ReadPoints
pub mod Layout
pub mod PackageParts
pub mod ReadPackage
pub mod ReadPackages
pub mod RoundTrip
pub mod Objects
pub mod Model
mod Examples
