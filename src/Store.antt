-- ===== src/Store.antt =====
-- internal/store/store.go: the tables of the SQLite database and the operations on them. The
-- children hold one group of operations each, their laws below them. Each operation takes, as
-- `wall`, the reading of time.Now() that it makes. A row is kept as the Go value that reading it
-- back gives: its times are rounded to milliseconds when they are written. Failures of the SQLite
-- engine itself are not modelled, except the violation of a key.
pub mod Tables
pub mod Contacts
pub mod Registrations
pub mod Pairings
pub mod Outbox
pub mod Tasks
pub mod Inbox
pub mod Audit
pub mod Nonces
pub mod Grants
pub mod Dedup
