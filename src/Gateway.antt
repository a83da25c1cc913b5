-- ===== src/Gateway.antt =====
-- glaive/src: the gateway that decides on each request.
pub mod Context
pub mod Path
pub mod Auth
pub mod Limiter
pub mod Proxy
pub mod Filters
pub mod Cache
pub mod Cluster
