-- ===== src/Negotiation/Safety.antt =====
-- Every handler and goroutine of the negotiation protocol keeps the guarantee.
pub mod Provider
pub mod Consumer
pub mod Endpoints
pub mod Service
