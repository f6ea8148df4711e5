-- ===== src/Peers.antt =====
-- `PeerAddressManager` of blockchaincoin/peers.py: the known peers with their backoff, their bans and
-- the limits on connections. A method returns its result beside the manager it leaves; a record that
-- Python hands out and mutates is the entry of the address.
pub mod Records
pub mod Manager
pub mod Bans
pub mod Counts
