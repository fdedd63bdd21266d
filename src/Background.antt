-- ===== src/Background.antt =====
-- internal/background/polling_manager.go: the manager of the workers that poll for long answers. `Polling` has
-- its operations, `Crowd` the calls of `StartPolling` that run at the same time, `Doubles` two calls for one
-- response, `Serial` the calls one after the other.
pub mod Polling
pub mod Crowd
pub mod Doubles
pub mod Runners
pub mod Serial
mod Tests
