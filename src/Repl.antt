-- ===== src/Repl.antt =====
-- The package repl/: capability tokens that are kept as facts.
pub mod Caps
mod Samples
