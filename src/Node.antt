-- ===== src/Node.antt =====
-- `ConsensusNode` of blockchaincoin/utxo_node.py: the node's state and its methods over the consensus
-- engine, the fork store, the pool policy and the caches.
pub mod Types
pub mod Submit
pub mod Assemble
pub mod Import
pub mod Queries
pub mod Open
pub mod Mining
pub mod Rejected
pub mod Selection
pub mod Admitted
pub mod Submitted
pub mod Replayable
pub mod Imported
pub mod Sound
pub mod Active
pub mod Balanced
