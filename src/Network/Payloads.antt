-- ===== src/Network/Payloads.antt =====
-- The messages of blockchaincoin/network.py and what their payloads hold. A payload is a constructor with the values
-- that its checks read from the dictionary. Where a check finds one missing or of another type and raises
-- NetworkError, the message is `ill_typed`; a payload that is no dictionary is `no_payload`, and reading it
-- raises what is no NetworkError. A text in a list of hashes, a stop hash or a claimed hash that is of
-- another type is the empty text, which the checks refuse likewise.
use blockchain_coin.Shared.{ℕ, Option, List, ℤ}
use blockchain_coin.Text.{Text}
use blockchain_coin.Failure.{Error}

-- NetworkError by its messages. The last two lines are what is none, and passes through: a KeyError, a
-- TypeError and the like of reading an item, a header or a payload, and what computing a hash raises.
pub data NetworkError : Type 0 where
  inventory_kind inventory_hash header_height header_difficulty header_version : NetworkError
  header_previous_hash header_root header_hash anchor_invalid proof_of_work_invalid : NetworkError
  headers_disconnected height_not_sequential version_network version_height version_node_id :
      NetworkError
  nonce_invalid too_many_items locator_limit stop_hash_invalid locator_hash too_many_headers :
      NetworkError
  reason_invalid transaction_invalid block_invalid payload_ill_typed header_is_malformed :
      NetworkError
  item_unreadable header_unreadable payload_unreadable : NetworkError
  hash_raises : Error → NetworkError

pub record InventoryVector : Type 0 where
  pub kind : Text
  pub hash : Text

-- An element of `items`: a dictionary with a kind and a hash; a list of pairs, of which `dict` makes such a
-- dictionary; or something from which no kind and hash are read.
pub data RawItem : Type 0 where
  item_fields item_pairs : InventoryVector → RawItem
  no_item : RawItem

pub record BlockHeader : Type 0 where
  pub height : ℤ
  pub previous_hash : Text
  pub transaction_root : Text
  pub difficulty : ℤ
  pub timestamp : ℕ
  pub nonce : ℤ
  pub version : ℤ

-- An element of `headers`: the fields of a header with the hash that it claims, where it claims one; a
-- dictionary that `from_dict` finds malformed; or something that `dict` or a conversion to a number refuses.
pub data RawHeader : Type 0 where
  header_fields : BlockHeader → Option Text → RawHeader
  header_malformed no_header : RawHeader

pub data PeerMessage : Type 0 where
  version : Text → ℤ → Text → PeerMessage
  verack : PeerMessage
  ping pong : ℤ → PeerMessage
  inv getdata : List RawItem → PeerMessage
  getheaders : List Text → Option Text → ℤ → PeerMessage
  headers : List RawHeader → PeerMessage
  tx block reject : Text → PeerMessage
  ill_typed no_payload : PeerMessage
