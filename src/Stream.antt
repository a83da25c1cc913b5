-- ===== src/Stream.antt =====
-- The stream layer of core/src/stream.
pub mod WriteVec
