-- ===== src/Invites.antt =====
-- internal/invitecode: invite codes that put a user on the whitelist. `Table` has the statements of
-- internal/storage/pg/queries/invitecodes.sql, `Generate` the making of codes (utils.go), `Service` the
-- operations of service.go.
pub mod Table
pub mod Generate
pub mod Service
pub mod Redeem
pub mod Once
pub mod Restore
pub mod Alphabet
mod Tests
