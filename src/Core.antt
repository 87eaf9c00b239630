-- ===== src/Core.antt =====
-- internal/core/types.go: the shared model.
pub mod Types
pub mod Names
pub mod Zone
pub mod Runtime
pub mod Bundles
