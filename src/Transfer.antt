-- ===== src/Transfer.antt =====
-- The transfer process protocol: internal/dsp/transfer*.go.
pub mod State
pub mod Sequence
pub mod Build
pub mod Provider
pub mod Consumer
pub mod Endpoints
pub mod Service
pub mod Refusal
pub mod Driving
pub mod Safety
pub mod Answers
