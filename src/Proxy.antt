-- ===== src/Proxy.antt =====
-- internal/proxy: the certificates of the TLS listener and the routes of the HTTP proxy.
pub mod Tls
pub mod Http
