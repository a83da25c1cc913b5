-- ===== src/Service.antt =====
-- The service layer of core/src/service.
pub mod Duplex
