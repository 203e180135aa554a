-- ===== src/Events.antt =====
-- services/shared/platform_shared/schemas.py: event types, payload models and envelopes.
pub mod Types
pub mod Values
pub mod Payloads
pub mod Validation
pub mod Contracts
pub mod Rereading
pub mod Envelopes
pub mod Identity
pub mod Samples
mod Tests
