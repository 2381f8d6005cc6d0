-- ===== src/Effect/Handlers.antt =====
-- The package effect/handlers/, apart from audit: one module for each handler.
pub mod Retry
pub mod RateLimit
pub mod Cache
pub mod Policy
pub mod Redact
mod Samples
