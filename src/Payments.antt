-- ===== src/Payments.antt =====
-- Payments: internal/zcash/service.go with the statements of
-- internal/storage/pg/queries/zcash_invoices.sql and entitlements.sql. `Store` has the two tables
-- and the statements, `Callback` the handling of a payment callback; `Settlement` has the cases that a
-- callback comes to, `Grants` who gets what, `Lifecycle` the states of an invoice, and `Repeats` and
-- `Doubles` what a repeated callback does. `Expiry` has the worker that expires old invoices, `Overdue` and
-- `Sweep` what is proved of it, and `Lapsed` the rows that it should leave.
pub mod Store
pub mod Callback
pub mod Settlement
pub mod Grants
pub mod Lifecycle
pub mod Repeats
pub mod Doubles
pub mod Expiry
pub mod Overdue
pub mod Lapsed
pub mod Sweep
mod Tests
