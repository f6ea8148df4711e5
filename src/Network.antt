-- ===== src/Network.antt =====
-- The messages of peers, blockchaincoin/network.py: their frames, and their kinds with the checks of each.
pub mod Frames
pub mod Delivery
pub mod Payloads
pub mod Headers
pub mod Messages
pub mod Chain
