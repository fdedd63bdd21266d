-- ===== src/Probe.antt =====
-- internal/probe/worker.go: the health of an endpoint by consecutive probe results. `Worker` has the loop,
-- `Health` and `Thresholds` what is proved of it.
pub mod Worker
pub mod Health
pub mod Thresholds
mod Tests
