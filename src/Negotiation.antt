-- ===== src/Negotiation.antt =====
-- The contract negotiation protocol: internal/dsp/negotiation*.go.
pub mod State
pub mod Decision
pub mod Build
pub mod Provider
pub mod Consumer
pub mod Endpoints
pub mod Service
pub mod Answers
pub mod Refusal
pub mod Reactions
pub mod Issuance
pub mod Dispatching
pub mod Accepting
pub mod Safety
