-- ===== src/Transmit.antt =====
-- Transmit jobs (server/internal/app/transmit.go): the checks, the command and the job's life.
pub mod Request
pub mod Clearance
pub mod Command
pub mod Job
pub mod Tests
