-- ===== src/Mempool.antt =====
-- The memory pool of blockchaincoin/utxo_node.py: `MempoolPolicy`, the limits of a node on the
-- transactions that it keeps.
pub mod Policy
pub mod Admission
pub mod Prune
