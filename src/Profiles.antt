-- ===== src/Profiles.antt =====
-- Scan profiles (server/internal/app/store.go, models.go and sdrtrunk.go): what a profile holds, when
-- it is valid, and the store of them in memory and on disk.
pub mod Profile
pub mod Store
