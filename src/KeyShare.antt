-- ===== src/KeyShare.antt =====
-- internal/keyshare: sessions in which one device of a user hands an encrypted key to another.
-- `Store` has the Firestore collection (firestore.go), `Service` the operations of service.go,
-- `Hub` the open connections (websocket_manager.go), `Listen` the two goroutines that serve one
-- connection (handlers.go).
pub mod Store
pub mod Service
pub mod Hub
pub mod Listeners
pub mod Presence
pub mod Listen
pub mod Submission
pub mod Acceptance
pub mod WriteOnce
pub mod Limits
pub mod Quiet
mod Tests
