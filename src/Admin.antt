-- ===== src/Admin.antt =====
-- The admin pages: internal/handlers/admin_*.go.
pub mod Replies
pub mod Paths
pub mod Login
pub mod Adhoc
pub mod World
pub mod Scoreboards
pub mod Scores
pub mod Settings
