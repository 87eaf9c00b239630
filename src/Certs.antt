-- ===== src/Certs.antt =====
-- Certificates: internal/certs.
pub mod Deploy
pub mod Requests
pub mod Ensure
pub mod Challenge
