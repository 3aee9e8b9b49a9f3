-- ===== src/Store.antt =====
-- internal/store/store.go: the rows, one SQLite table, and the operations of `Store`.
pub mod Table
pub mod Rows
pub mod Evolution
pub mod Moves
pub mod Safety
pub mod Negotiations
pub mod Agreements
pub mod Transfers
pub mod Swap
pub mod Follow
pub mod Abstract
pub mod Insertion
pub mod Roster
