-- ===== src/Session.antt =====
-- `PeerSession` of blockchaincoin/peer.py: the handshake, the pings, the inventory and the
-- misbehavior of one connection.
pub mod State
pub mod Handlers
pub mod Handshake
pub mod Score
pub mod Penalty
