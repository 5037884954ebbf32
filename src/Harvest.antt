-- ===== src/Harvest.antt =====
-- worker/src/harvest: the slow backfill of each account's surfaces.
pub mod State
pub mod Scheduler
pub mod Backfill
pub mod Runner
mod Tests
