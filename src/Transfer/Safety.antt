-- ===== src/Transfer/Safety.antt =====
-- Every handler and goroutine of the transfer protocol, but for the pull, keeps the guarantee.
pub mod Provider
pub mod Consumer
pub mod Endpoints
pub mod Service
