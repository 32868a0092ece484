-- ===== src/Watchdog.antt =====
-- src/lifecycle/watchdog.ts, watchdog-subject.ts and src/watchdog-status.ts: sampling a live run's
-- progress, the idle clock, and the verdicts that cancel a run.
pub mod Events
pub mod Clock
pub mod Verdict
pub mod Drive
