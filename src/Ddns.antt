-- ===== src/Ddns.antt =====
-- internal/ddns: the errors of the providers and the synchronisation service.
pub mod Errors
pub mod Service
pub mod Detection
