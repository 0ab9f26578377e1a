-- ===== src/Store.antt =====
-- packages/db: the rows of one intent, and what the repository writes to them.
pub mod Rows
pub mod Outbox
pub mod Apply
pub mod Errors
pub mod Reading
pub mod Attach
pub mod Submit
pub mod Promote
pub mod Writers
pub mod Leases
pub mod Deliveries
