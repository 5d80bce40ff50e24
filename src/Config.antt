-- ===== src/Config.antt =====
-- internal/config.
pub mod Generator
pub mod Spa
pub mod Ports
pub mod Keys
