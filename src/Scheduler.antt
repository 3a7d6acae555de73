-- ===== src/Scheduler.antt =====
-- The scheduler: conductor-and-worker/conductor/go-conductor/go-db-scheduler/scheduler.go over the
-- generated queries of db-internal/sqlc-generated.
pub mod Logging
pub mod Store
pub mod Messages
pub mod Order
pub mod Chains
pub mod Alarms
pub mod Tickets
pub mod Run
pub mod Tests
