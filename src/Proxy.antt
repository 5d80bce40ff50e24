-- ===== src/Proxy.antt =====
-- internal/proxy: the proxy with mutual TLS.
pub mod Mtls
