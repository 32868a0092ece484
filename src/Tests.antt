-- ===== src/Tests.antt =====
-- Concrete calls of the modelled code, and each theorem at one of them.
mod Registry
mod Watchdog
mod Workflow
mod Dispatch
mod Store
mod Issues
mod Polling
mod Provider
