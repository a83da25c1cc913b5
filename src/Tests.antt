-- ===== src/Tests.antt =====
-- Concrete inputs: tests of the definitions, and instances of the theorems.
pub mod Samples
pub mod Platforms
mod Sessions
mod Reader
mod Caches
mod Clusters
mod Gateway
mod Pools
mod Writer
mod Headers
mod Downstreams
mod Upstreams
mod Duplexes
mod Filters
