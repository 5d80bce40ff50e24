-- ===== src/Spa.antt =====
-- internal/spa.
pub mod Crypto
pub mod Totp
pub mod Packet
pub mod Verifier
pub mod MapLoader
pub mod Handler
pub mod Listener
pub mod Client
pub mod Manager
