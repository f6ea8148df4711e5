-- ===== src/Session/Handlers.antt =====
-- How `PeerSession` (blockchaincoin/peer.py) handles a message that it receives.
use blockchain_coin.Shared.{
  ◌+◌, Bool, true, false, not, some, List, [], ◌∷◌, ◌++◌, length, ℤ, pos, leb_ℤ, if◌then◌else◌,
  Result, ok, err, bind,
}
use blockchain_coin.Text.{Text, codes, text_eq}
use blockchain_coin.Failure.{Error}
use blockchain_coin.Crypto.{Primitives}
use blockchain_coin.Consensus.Encode.{txid, block_hash}
use blockchain_coin.Network.Payloads.{
  BlockHeader, InventoryVector, PeerMessage, RawHeader, RawItem, block, getdata, getheaders,
  hash_raises, header_unreadable, headers, ill_typed, inv, item_unreadable, no_payload,
  payload_unreadable, ping, pong, reject, tx, verack, version,
}
use blockchain_coin.Network.Headers.{hash_of_header, headers_from_payload}
use blockchain_coin.Network.Messages.{
  block_from_payload, item_from_dict, transaction_from_payload, validate_payload,
}
use blockchain_coin.Session.State.{
  SessionError, other_network, same_node_id, unexpected_verack, pong_not_pending,
  known_inventory_full, requested_inventory_full, network_raises, consensus_raises, Key,
  PeerSession, Outcome, has_key, add_key, has_ping, remove_ping, key_of, start_handshake,
  send_verack, request,
}

-- The first answer of `_handle_version`: its own version, if it has sent none
unfoldable pub answer_opening : PeerSession → List PeerMessage × PeerSession
answer_opening s =
    if s.version_sent then ([], s) else ((start_handshake s).0 ∷ [], (start_handshake s).1)

-- The second: its verack, if it has sent none, behind what is sent already
unfoldable pub answer_verack : List PeerMessage → PeerSession → Outcome (List PeerMessage)
answer_verack sent s =
    if s.verack_sent
    then (ok sent, s)
    else (bind (send_verack s).0 λ acknowledged. ok (sent ++ acknowledged ∷ []), (send_verack s).1)

-- `_handle_version`
unfoldable pub handle_version : Text → ℤ → Text → PeerSession → Outcome (List PeerMessage)
handle_version network height node_id s =
    let seen : PeerSession = record s { remote_node_id = some node_id } in
    if not (text_eq network s.network)
    then (err other_network, s)
    else if text_eq node_id s.node_id
    then (err same_node_id, seen)
    else (let (sent, opened) =
          answer_opening (record seen { remote_height = height; version_received = true }) in
        answer_verack sent opened)

-- `_handle_verack`
unfoldable pub handle_verack : PeerSession → Outcome (List PeerMessage)
handle_verack s =
    if not s.version_sent
    then (err unexpected_verack, s)
    else (ok [], record s { verack_received = true })

-- `_handle_pong`
unfoldable pub handle_pong : ℤ → PeerSession → Outcome (List PeerMessage)
handle_pong nonce s =
    if not (has_ping nonce s.pending_pings)
    then (err pong_not_pending, s)
    else (ok [], record s { pending_pings = remove_ping nonce s.pending_pings })

-- `len(...) >= self.max_inventory_items`
abbrev pub is_full : List Key → PeerSession → Bool
is_full keys s = leb_ℤ s.max_inventory_items (pos (length keys))

-- The loop of `_handle_inv`: what is wanted of the items
unfoldable pub take_inventory : List RawItem → PeerSession → Outcome (List InventoryVector)
take_inventory [] s = (ok [], s)
take_inventory (raw ∷ items) s = elim (item_from_dict raw) [
  | err e ↦ (err (network_raises e), s)
  | ok item ↦ elim (has_key (key_of item) s.known_inventory) [
    | true ↦ take_inventory items s
    | false ↦ elim (is_full s.known_inventory s) [
      | true ↦ (err known_inventory_full, s)
      | false ↦
          let added : PeerSession = record s {
            known_inventory = add_key (key_of item) s.known_inventory;
          } in
          let (r, s') = take_inventory items added in (bind r λ wanted. ok (item ∷ wanted), s')
    ]
  ]
]

-- `[self.request(wanted)] if wanted else []`
unfoldable pub request_wanted : List InventoryVector → PeerSession → List PeerMessage × PeerSession
request_wanted [] s = ([], s)
request_wanted (item ∷ items) s = let (message, s') = request (item ∷ items) s in (message ∷ [], s')

-- `_handle_inv`
unfoldable pub handle_inv : List RawItem → PeerSession → Outcome (List PeerMessage)
handle_inv items s =
    let (r, s') = take_inventory items s in
    elim r [
      | err e ↦ (err e, s')
      | ok wanted ↦ let (messages, s'') = request_wanted wanted s' in (ok messages, s'')
    ]

-- `_handle_getdata`
unfoldable pub handle_getdata : List RawItem → PeerSession → Outcome (List PeerMessage)
handle_getdata [] s = (ok [], s)
handle_getdata (raw ∷ items) s = elim (item_from_dict raw) [
  | err e ↦ (err (network_raises e), s)
  | ok item ↦ elim (is_full s.requested_inventory s) [
    | true ↦ (err requested_inventory_full, s)
    | false ↦
        handle_getdata items
          (record s { requested_inventory = add_key (key_of item) s.requested_inventory })
  ]
]

-- `_handle_getheaders`
unfoldable pub handle_getheaders : List Text → PeerSession → Outcome (List PeerMessage)
handle_getheaders [] s = (ok [], s)
handle_getheaders (hash ∷ locator) s =
    handle_getheaders locator (record s {
      requested_inventory = add_key (codes "block_header", hash) s.requested_inventory;
    })

module _ ⦃prim : Primitives⦄ where
  -- The loop of `_handle_headers`
  unfoldable pub take_headers : List BlockHeader → PeerSession → Outcome (List PeerMessage)
  take_headers [] s = (ok [], s)
  take_headers (h ∷ hs) s =
      if is_full s.known_inventory s
      then (err known_inventory_full, s)
      else elim (hash_of_header h) [
        | err e ↦ (err (network_raises e), s)
        | ok hash ↦
            take_headers hs (record s {
              known_inventory = add_key (codes "block_header", hash) s.known_inventory;
            })
      ]

  -- `_handle_headers`
  unfoldable pub handle_headers : List RawHeader → PeerSession → Outcome (List PeerMessage)
  handle_headers payload s = elim (headers_from_payload payload) [
    | err e ↦ (err (network_raises e), s)
    | ok hs ↦ take_headers hs s
  ]

  -- An id that has been computed is added to what is known.
  unfoldable pub know : Text → Result Error Text → PeerSession → Outcome (List PeerMessage)
  know kind (err e) s = (err (consensus_raises e), s)
  know kind (ok hash) s =
      (ok [], record s { known_inventory = add_key (kind, hash) s.known_inventory })

  -- `_handle_payload`, of a transaction and of a block
  unfoldable pub handle_transaction : Text → PeerSession → Outcome (List PeerMessage)
  handle_transaction raw s = elim (transaction_from_payload raw) [
    | err e ↦ (err (network_raises e), s)
    | ok t ↦ know (codes "tx") (txid t) s
  ]

  unfoldable pub handle_block : Text → PeerSession → Outcome (List PeerMessage)
  handle_block raw s = elim (block_from_payload raw) [
    | err e ↦ (err (network_raises e), s)
    | ok b ↦ know (codes "block") (block_hash b) s
  ]

  -- The handler of a message
  unfoldable pub handle : PeerMessage → PeerSession → Outcome (List PeerMessage)
  handle (version network height node_id) s = handle_version network height node_id s
  handle verack s = handle_verack s
  handle (ping nonce) s = (ok (pong nonce ∷ []), s)
  handle (pong nonce) s = handle_pong nonce s
  handle (inv items) s = handle_inv items s
  handle (getdata items) s = handle_getdata items s
  handle (getheaders locator stop_hash limit) s = handle_getheaders locator s
  handle (headers payload) s = handle_headers payload s
  handle (tx raw) s = handle_transaction raw s
  handle (block raw) s = handle_block raw s
  handle (reject reason) s = (ok [], record s { misbehavior_score = s.misbehavior_score + 1 })
  handle ill_typed s = (ok [], s)
  handle no_payload s = (ok [], s)

  -- `except (NetworkError, PeerError)`: what is no NetworkError and no PeerError passes.
  unfoldable pub passes : SessionError → Bool
  passes (consensus_raises e) = true
  passes (network_raises (hash_raises e)) = true
  passes (network_raises item_unreadable) = true
  passes (network_raises header_unreadable) = true
  passes (network_raises payload_unreadable) = true
  passes e = false

  -- The answer to a message that violates the rules
  unfoldable pub refuse : PeerSession → Outcome (List PeerMessage)
  refuse s = (
    ok (reject (codes "invalid message") ∷ []),
    record s { misbehavior_score = s.misbehavior_score + 1 },
  )

  unfoldable pub settle : Outcome (List PeerMessage) → Outcome (List PeerMessage)
  settle (ok messages, s) = (ok messages, s)
  settle (err e, s) = if passes e then (err e, s) else refuse s

  -- `receive`
  unfoldable pub receive : PeerMessage → PeerSession → Outcome (List PeerMessage)
  receive message s = elim (validate_payload message) [
    | err e ↦ settle (err (network_raises e), s)
    | ok u ↦ settle (handle message s)
  ]
