-- ===== src/Tests.antt =====
-- Test data, tests, and one concrete use of each theorem that has hypotheses.
pub mod Fixtures
pub mod Negotiations
pub mod Stores
pub mod Transfers
pub mod Downloads
pub mod Tokens
mod Pulls
mod Rosters
mod Callbacks
mod Configurations
mod Catalogs
mod Gates
mod Scripts
mod Management
