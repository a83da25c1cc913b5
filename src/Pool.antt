-- ===== src/Pool.antt =====
-- core/src/pool: the pool of idle connections.
pub mod Queues
pub mod Node
pub mod Lru
pub mod Manager
