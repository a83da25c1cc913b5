-- ===== src/Session.antt =====
-- The HTTP/1.x session layer of core/src/session.
pub mod Offset
pub mod KvOffset
pub mod Streams
pub mod Reader
pub mod Writer
pub mod Buffer
pub mod Keepalive
pub mod Http
pub mod Headers
pub mod Lengths
pub mod Platform
pub mod Task
pub mod Heads
pub mod Downstream
pub mod Upstream
pub mod Modes
