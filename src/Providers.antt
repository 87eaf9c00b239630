-- ===== src/Providers.antt =====
-- internal/ddns/provider: the DNS providers, their options, their registry and their clients.
pub mod Options
pub mod Clients
pub mod Registry
pub mod Spaceship
pub mod Upserts
