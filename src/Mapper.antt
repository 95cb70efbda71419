-- ===== src/Mapper.antt =====
-- Mapper jobs (server/internal/app/mapper.go and live_survey.go).
pub mod Config
pub mod Job
pub mod Jobs
pub mod Batches
