-- ===== src/Storage/Progress.antt =====
-- `SQLitePeerSyncStore` of blockchaincoin/storage.py: the counters of block downloads by address.
use blockchain_coin.Shared.{
  Option, List, [], ◌∷◌, if◌then◌else◌, ℤ, Dict, lookup, insert, ◌&&◌, Result, ok, err,
}
use blockchain_coin.Codec.Words.{fits_int64}
use blockchain_coin.Text.{Text, text_lt, text_equality}

pub record StoredPeerSyncProgress : Type 0 where
  pub address : Text
  pub requested_blocks : ℤ
  pub completed_blocks : ℤ
  pub timed_out_blocks : ℤ
  pub failed_blocks : ℤ

abbrev pub PeerSyncStore : Type 0
PeerSyncStore = Dict Text StoredPeerSyncProgress

-- The OverflowError of a counter outside SQLite's 64 bits
pub data ProgressError : Type 0 where
  counter_too_large : ProgressError

unfoldable pub save_progress :
    StoredPeerSyncProgress → PeerSyncStore → Result ProgressError PeerSyncStore
save_progress p table =
    if fits_int64 p.requested_blocks
      && (fits_int64 p.completed_blocks
          && (fits_int64 p.timed_out_blocks && fits_int64 p.failed_blocks))
    then ok (insert p.address p table)
    else err counter_too_large

unfoldable pub load_progress : Text → PeerSyncStore → Option StoredPeerSyncProgress
load_progress address table = lookup address table

unfoldable pub insert_progress :
    StoredPeerSyncProgress → List StoredPeerSyncProgress → List StoredPeerSyncProgress
insert_progress p [] = p ∷ []
insert_progress p (q ∷ qs) =
    let rest = insert_progress p qs in if text_lt p.address q.address then p ∷ q ∷ qs else q ∷ rest

-- `all_progress`, in the order of the addresses
unfoldable pub all_progress : PeerSyncStore → List StoredPeerSyncProgress
all_progress [] = []
all_progress (entry ∷ table) = insert_progress entry.1 (all_progress table)
