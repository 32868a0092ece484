-- ===== src/Registry.antt =====
-- The in-memory registries of src/lifecycle: runs in flight, scheduled work, and the issue
-- reservations that combine the two.
pub mod InFlight
pub mod Scheduled
pub mod Reservations
pub mod ActiveRuns
