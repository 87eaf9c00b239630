-- ===== src/Program.antt =====
-- cmd/domux/main.go: what the server program puts together.
pub mod Routes
pub mod Applications
pub mod Selection
pub mod Refresh
