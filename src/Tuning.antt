-- ===== src/Tuning.antt =====
-- The adaptive receiver tuning of a Mapper job, server/internal/app/mapper_tuning.go.
pub mod State
pub mod Rtl
pub mod HackRf
pub mod Job
pub mod Margin
mod Tests
