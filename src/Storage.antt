-- ===== src/Storage.antt =====
-- The storage policy of server/internal/app: what is kept on disk, for how long and how much of it.
pub mod Policy
pub mod Journal
pub mod Prune
