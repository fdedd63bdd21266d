-- ===== src/Fai.antt =====
-- internal/fai: payments in FAI tokens, which a contract on a blockchain reports as events. `Event` has the
-- decoding of an event, `Service` the operations of service.go.
pub mod Event
pub mod Encoding
pub mod Service
pub mod Sync
pub mod Grants
pub mod Repeats
mod Tests
