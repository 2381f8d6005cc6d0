-- ===== src/Txn.antt =====
-- The package txn/: software transactional memory over the log of fact/.
pub mod Transaction
pub mod Conflict
pub mod Commit
pub mod Run
pub mod Atom
pub mod Fork
mod Samples
