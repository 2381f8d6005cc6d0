-- ===== src/Plan.antt =====
-- The package plan/: plans as trees of nodes that are named by their content.
pub mod Node
pub mod Edit
pub mod Walk
pub mod Execute
mod Samples
