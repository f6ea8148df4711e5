-- ===== src/Consensus.antt =====
-- blockchaincoin/consensus.py: data, codecs, the set of unspent outputs, and the rules for
-- transactions and blocks.
pub mod Types
pub mod Encode
pub mod Decode
pub mod RoundTrip
pub mod Utxo
pub mod State
pub mod Merkle
pub mod Blocks
