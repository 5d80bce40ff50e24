-- ===== src/Logger.antt =====
-- internal/logger: security events, and where log messages go.
pub mod Event
pub mod Manager
