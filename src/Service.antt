-- ===== src/Service.antt =====
-- The Windows service.
pub mod Versions
