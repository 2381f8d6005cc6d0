-- ===== src/Fact.antt =====
-- persistence/fact: the bitemporal datom log (datom.py, store.py, db.py).
pub mod Datom
pub mod Store
pub mod Shape
pub mod Transact
pub mod View
pub mod Fold
pub mod Samples
