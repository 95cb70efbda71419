-- ===== src/Events.antt =====
-- The event store of server/internal/app: the history of received transmissions.
pub mod Text
pub mod Event
pub mod Index
pub mod Signals
pub mod Store
pub mod Load
pub mod Query
