-- ===== src/Effect.antt =====
-- persistence/effect: the handler stack (runtime.py) and the handlers built on it.
pub mod Action
pub mod Audit
pub mod Runtime
pub mod Handlers
mod Samples
