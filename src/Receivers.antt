-- ===== src/Receivers.antt =====
-- Which receiver the Live workspace and the Mapper's jobs use (server/internal/app/runtime.go).
pub mod Plan
pub mod Owners
pub mod Partition
