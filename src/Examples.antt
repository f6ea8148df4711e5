-- ===== src/Examples.antt =====
-- A small chain on which the theorems are applied.
pub mod Ledger
pub mod Witnesses
pub mod PeerWitnesses
pub mod MempoolWitnesses
pub mod StoreWitnesses
pub mod NodeWitnesses
pub mod MiningWitnesses
pub mod StorageWitnesses
pub mod SessionWitnesses
