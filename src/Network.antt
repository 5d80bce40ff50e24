-- ===== src/Network.antt =====
-- internal/network.
pub mod Interface
