-- ===== src/Webdash.antt =====
-- internal/webdash: the web dashboard.
pub mod Auth
pub mod Settings
pub mod Fleet
pub mod Server
