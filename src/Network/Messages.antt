-- ===== src/Network/Messages.antt =====
-- The checks of blockchaincoin/network.py for each kind of message, and the messages that carry a
-- transaction or a block.
use blockchain_coin.Shared.{
  ℕ, Bool, true, false, not, ◌||◌, Option, none, some, List, [], ◌∷◌, length, is_empty, ltb, ℤ, pos,
  negsuc, ltb_ℤ, Result, ok, err, bind, raise_if,
}
use blockchain_coin.Text.{Text, codes, text_eq}
use blockchain_coin.Failure.{Error}
use blockchain_coin.Crypto.{Primitives}
use blockchain_coin.Codec.Hex.{hex}
use blockchain_coin.Consensus.Types.{Transaction, Block}
use blockchain_coin.Consensus.Encode.{transaction_bytes, block_bytes}
use blockchain_coin.Consensus.Decode.{transaction_from_bytes, block_from_bytes}
use blockchain_coin.Consensus.Merkle.{bytes_fromhex}
use blockchain_coin.Network.Payloads.{
  InventoryVector, NetworkError, PeerMessage, RawItem, block, block_invalid, getdata, getheaders,
  headers, ill_typed, inv, inventory_hash, inventory_kind, item_fields, item_pairs, item_unreadable,
  locator_hash, locator_limit, no_item, no_payload, nonce_invalid, payload_ill_typed,
  payload_unreadable, ping, pong, reason_invalid, reject, stop_hash_invalid, too_many_items,
  transaction_invalid, tx, verack, version, version_height, version_network, version_node_id,
}
use blockchain_coin.Network.Headers.{headers_from_payload, is_hash}

infixl 5 ◌>>=◌ ◌>>◌
abbrev ◌>>=◌ : {E A B : Type 0} → Result E A → (A → Result E B) → Result E B
◌>>=◌ = bind

abbrev ◌>>◌ : {E A B : Type 0} → Result E A → Result E B → Result E B
m >> k = bind m λ _. k

-- `InventoryVector.from_dict`
unfoldable pub check_item : InventoryVector → Result NetworkError (Unit {0})
check_item item = do
  raise_if (not (text_eq item.kind (codes "tx") || text_eq item.kind (codes "block")))
      inventory_kind
  raise_if (not (is_hash item.hash)) inventory_hash

-- `InventoryVector.from_dict(dict(item))`
unfoldable pub check_raw_item : RawItem → Result NetworkError (Unit {0})
check_raw_item (item_fields item) = check_item item
check_raw_item (item_pairs item) = check_item item
check_raw_item no_item = err item_unreadable

-- `InventoryVector.from_dict(raw_item)`, which takes no list of pairs
unfoldable pub item_from_dict : RawItem → Result NetworkError InventoryVector
item_from_dict (item_fields item) = check_item item >> ok item
item_from_dict (item_pairs item) = err item_unreadable
item_from_dict no_item = err item_unreadable

unfoldable pub check_items : List RawItem → Result NetworkError (Unit {0})
check_items [] = ok tt
check_items (item ∷ items) = check_raw_item item >> check_items items

-- MAX_INVENTORY_ITEMS, and the most headers of a message
abbrev pub max_inventory_items : ℕ
max_inventory_items = 2_000

-- `_validate_inventory`
unfoldable pub validate_inventory : List RawItem → Result NetworkError (Unit {0})
validate_inventory items =
    raise_if (ltb max_inventory_items (length items)) too_many_items >> check_items items

unfoldable pub check_locator : List Text → Result NetworkError (Unit {0})
check_locator [] = ok tt
check_locator (hash ∷ hashes) = raise_if (not (is_hash hash)) locator_hash >> check_locator hashes

-- `stop_hash is not None and not _is_hash(stop_hash)`
abbrev pub is_bad_stop : Option Text → Bool
is_bad_stop none = false
is_bad_stop (some hash) = not (is_hash hash)

-- `_validate_getheaders`
unfoldable pub validate_getheaders : List Text → Option Text → ℤ → Result NetworkError (Unit {0})
validate_getheaders locator stop_hash limit = do
  raise_if (ltb_ℤ limit (pos 0) || ltb_ℤ (pos 2_000) limit) locator_limit
  raise_if (is_bad_stop stop_hash) stop_hash_invalid
  check_locator locator

-- `_validate_version`
unfoldable pub validate_version_payload : Text → ℤ → Text → Result NetworkError (Unit {0})
validate_version_payload network height node_id = do
  raise_if (is_empty network) version_network
  raise_if (ltb_ℤ height (negsuc 0)) version_height
  raise_if (is_empty node_id) version_node_id

-- `transaction_from_payload`: every failure of the codec is a ConsensusError or a ValueError.
unfoldable pub transaction_from_payload : Text → Result NetworkError Transaction
transaction_from_payload raw = elim (bytes_fromhex raw >>= transaction_from_bytes true) [
  | err e ↦ err transaction_invalid
  | ok t ↦ ok t
]

module _ ⦃prim : Primitives⦄ where
  -- `block_from_payload`
  unfoldable pub block_from_payload : Text → Result NetworkError Block
  block_from_payload raw = elim (bytes_fromhex raw >>= block_from_bytes) [
    | err e ↦ err block_invalid
    | ok b ↦ ok b
  ]

  -- `validate_payload`
  unfoldable pub validate_payload : PeerMessage → Result NetworkError (Unit {0})
  validate_payload (version network height node_id) =
      validate_version_payload network height node_id
  validate_payload verack = ok tt
  validate_payload (ping nonce) = raise_if (ltb_ℤ nonce (pos 0)) nonce_invalid
  validate_payload (pong nonce) = raise_if (ltb_ℤ nonce (pos 0)) nonce_invalid
  validate_payload (inv items) = validate_inventory items
  validate_payload (getdata items) = validate_inventory items
  validate_payload (getheaders locator stop_hash limit) =
      validate_getheaders locator stop_hash limit
  validate_payload (headers payload) = headers_from_payload payload >> ok tt
  validate_payload (tx raw) = transaction_from_payload raw >> ok tt
  validate_payload (block raw) = block_from_payload raw >> ok tt
  validate_payload (reject reason) = raise_if (is_empty reason) reason_invalid
  validate_payload ill_typed = err payload_ill_typed
  validate_payload no_payload = err payload_unreadable

  -- `transaction_message` and `block_message`
  unfoldable pub transaction_message : Transaction → Result Error PeerMessage
  transaction_message t = transaction_bytes true t >>= λ raw. ok (tx (hex raw))

  unfoldable pub block_message : Block → Result Error PeerMessage
  block_message b = block_bytes b >>= λ raw. ok (block (hex raw))
