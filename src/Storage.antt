-- ===== src/Storage.antt =====
-- The caches beside the fork store in blockchaincoin/storage.py, with a table as the list of its rows
-- or the dictionary of its primary key. Integers are those that SQLite's 64 bits hold.
pub mod Index
pub mod Pool
pub mod Progress
pub mod Invalid
pub mod Parameters
pub mod Agreed
pub mod Snapshots
