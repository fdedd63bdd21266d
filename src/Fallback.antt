-- ===== src/Fallback.antt =====
-- internal/fallback/service.go: the worker that moves the endpoints of one model between the
-- active and the inactive list. `Worker` has the code, `Endpoints` and `Counts` what a change of
-- state does to the endpoints, `Table` what it does to the whole table and when the worker runs again.
pub mod Worker
pub mod Endpoints
pub mod Counts
pub mod Table
mod Tests
