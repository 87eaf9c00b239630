-- ===== src/Discovery.antt =====
-- internal/discovery: from containers to routes.
pub mod Labels
pub mod Target
pub mod Routes
