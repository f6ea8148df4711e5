-- ===== src/Session/Score.antt =====
-- The misbehavior score of `PeerSession` (blockchaincoin/peer.py) through its handlers.
use blockchain_coin.Shared.{
  ◌+◌, ◌≡◌, refl, ◌∙◌, ◌⊎◌, inl, inr, List, [], ◌∷◌, ℤ, Result, ok, err, Result-cases, Bool-cases,
  arith,
}
use blockchain_coin.Text.{Text, codes}
use blockchain_coin.Crypto.{Primitives}
use blockchain_coin.Consensus.Encode.{txid, block_hash}
use blockchain_coin.Network.Payloads.{
  BlockHeader, InventoryVector, PeerMessage, RawHeader, RawItem, block, getdata, getheaders,
  headers, ill_typed, inv, no_payload, ping, pong, reject, tx, verack, version,
}
use blockchain_coin.Network.Headers.{hash_of_header, headers_from_payload}
use blockchain_coin.Network.Messages.{block_from_payload, item_from_dict, transaction_from_payload}
use blockchain_coin.Session.State.{
  PeerSession, has_key, add_key, key_of, start_handshake, send_verack, request,
}
use blockchain_coin.Session.Handlers.{
  is_full, answer_opening, answer_verack, handle_version, handle_verack, handle_pong,
  take_inventory, request_wanted, handle_inv, handle_getdata, handle_getheaders, take_headers,
  handle_headers, know, handle_transaction, handle_block, handle,
}

answer_verack-score :
    (sent : List PeerMessage) (s : PeerSession)
    → (answer_verack sent s).1.misbehavior_score ≡ s.misbehavior_score
unfolding answer_verack send_verack
answer_verack-score sent s = ground arith

handle_version-score :
    (network : Text) (height : ℤ) (node_id : Text) (s : PeerSession)
    → (handle_version network height node_id s).1.misbehavior_score ≡ s.misbehavior_score
unfolding handle_version answer_opening start_handshake answer_verack send_verack
handle_version-score network height node_id s = ground arith

handle_verack-score :
    (s : PeerSession) → (handle_verack s).1.misbehavior_score ≡ s.misbehavior_score
unfolding handle_verack
handle_verack-score s = ground arith

handle_pong-score :
    (nonce : ℤ) (s : PeerSession) → (handle_pong nonce s).1.misbehavior_score ≡ s.misbehavior_score
unfolding handle_pong
handle_pong-score nonce s = ground arith

take_inventory-score :
    (items : List RawItem) (s : PeerSession)
    → (take_inventory items s).1.misbehavior_score ≡ s.misbehavior_score
unfolding take_inventory
take_inventory-score [] s = refl
take_inventory-score (raw ∷ items) s = elim (Result-cases (item_from_dict raw)) [
  | inr (e, raised) ↦ rw (raised, take_inventory) refl
  | inl (item, e) ↦ elim (Bool-cases (has_key (key_of item) s.known_inventory)) [
    | inl known ↦ rw (e, known, take_inventory) (take_inventory-score items s)
    | inr new ↦ elim (Bool-cases (is_full s.known_inventory s)) [
      | inl full ↦ rw (e, new, full, take_inventory) refl
      | inr free ↦
          rw (e, new, free, take_inventory)
            (take_inventory-score items
              (record s { known_inventory = add_key (key_of item) s.known_inventory }))
    ]
  ]
]

request_wanted-score :
    (items : List InventoryVector) (s : PeerSession)
    → (request_wanted items s).1.misbehavior_score ≡ s.misbehavior_score
unfolding request_wanted request
request_wanted-score [] s = refl
request_wanted-score (item ∷ items) s = refl

handle_inv-score :
    (items : List RawItem) (s : PeerSession)
    → (handle_inv items s).1.misbehavior_score ≡ s.misbehavior_score
unfolding handle_inv
handle_inv-score items s = elim (Result-cases (take_inventory items s).0) [
  | inl (wanted, e) ↦
      rw (e, handle_inv)
        (request_wanted-score wanted (take_inventory items s).1 ∙ take_inventory-score items s)
  | inr (e, raised) ↦ rw (raised, handle_inv) (take_inventory-score items s)
]

handle_getdata-score :
    (items : List RawItem) (s : PeerSession)
    → (handle_getdata items s).1.misbehavior_score ≡ s.misbehavior_score
unfolding handle_getdata
handle_getdata-score [] s = refl
handle_getdata-score (raw ∷ items) s = elim (Result-cases (item_from_dict raw)) [
  | inr (e, raised) ↦ rw (raised, handle_getdata) refl
  | inl (item, e) ↦ elim (Bool-cases (is_full s.requested_inventory s)) [
    | inl full ↦ rw (e, full, handle_getdata) refl
    | inr free ↦
        rw (e, free, handle_getdata)
          (handle_getdata-score items
            (record s { requested_inventory = add_key (key_of item) s.requested_inventory }))
  ]
]

handle_getheaders-score :
    (locator : List Text) (s : PeerSession)
    → (handle_getheaders locator s).1.misbehavior_score ≡ s.misbehavior_score
unfolding handle_getheaders
handle_getheaders-score [] s = refl
handle_getheaders-score (hash ∷ locator) s =
    handle_getheaders-score locator (record s {
      requested_inventory = add_key (codes "block_header", hash) s.requested_inventory;
    })

module _ ⦃prim : Primitives⦄ where
  take_headers-score :
      (hs : List BlockHeader) (s : PeerSession)
      → (take_headers hs s).1.misbehavior_score ≡ s.misbehavior_score
  unfolding take_headers
  take_headers-score [] s = refl
  take_headers-score (h ∷ hs) s = elim (Bool-cases (is_full s.known_inventory s)) [
    | inl full ↦ rw (full) refl
    | inr free ↦ elim (Result-cases (hash_of_header h)) [
      | inl (hash, e) ↦
          rw (free, e)
            (take_headers-score hs (record s {
              known_inventory = add_key (codes "block_header", hash) s.known_inventory;
            }))
      | inr (e, raised) ↦ rw (free, raised) refl
    ]
  ]

  handle_headers-score :
      (payload : List RawHeader) (s : PeerSession)
      → (handle_headers payload s).1.misbehavior_score ≡ s.misbehavior_score
  unfolding handle_headers
  handle_headers-score payload s = elim (Result-cases (headers_from_payload payload)) [
    | inl (hs, e) ↦ rw (e, handle_headers) (take_headers-score hs s)
    | inr (e, raised) ↦ rw (raised, handle_headers) refl
  ]

  know-score :
      (kind : Text) (r : Result blockchain_coin.Failure.Error Text) (s : PeerSession)
      → (know kind r s).1.misbehavior_score ≡ s.misbehavior_score
  unfolding know
  know-score kind (ok hash) s = refl
  know-score kind (err e) s = refl

  handle_transaction-score :
      (raw : Text) (s : PeerSession)
      → (handle_transaction raw s).1.misbehavior_score ≡ s.misbehavior_score
  unfolding handle_transaction
  handle_transaction-score raw s = elim (Result-cases (transaction_from_payload raw)) [
    | inl (t, e) ↦ rw (e, handle_transaction) (know-score (codes "tx") (txid t) s)
    | inr (e, raised) ↦ rw (raised, handle_transaction) refl
  ]

  handle_block-score :
      (raw : Text) (s : PeerSession)
      → (handle_block raw s).1.misbehavior_score ≡ s.misbehavior_score
  unfolding handle_block
  handle_block-score raw s = elim (Result-cases (block_from_payload raw)) [
    | inl (b, e) ↦ rw (e, handle_block) (know-score (codes "block") (block_hash b) s)
    | inr (e, raised) ↦ rw (raised, handle_block) refl
  ]

  -- What a handler does to the count: nothing, unless the message is a reject.
  pub handle-score :
      (message : PeerMessage) (s : PeerSession)
      → ((handle message s).1.misbehavior_score ≡ s.misbehavior_score)
        ⊎ ((reason : Text) × (message ≡ reject reason)
            × (handle message s
                ≡ (ok [], record s { misbehavior_score = s.misbehavior_score + 1 })))
  unfolding handle
  handle-score (version network height node_id) s =
      inl (handle_version-score network height node_id s)
  handle-score verack s = inl (handle_verack-score s)
  handle-score (ping nonce) s = inl refl
  handle-score (pong nonce) s = inl (handle_pong-score nonce s)
  handle-score (inv items) s = inl (handle_inv-score items s)
  handle-score (getdata items) s = inl (handle_getdata-score items s)
  handle-score (getheaders locator stop_hash limit) s = inl (handle_getheaders-score locator s)
  handle-score (headers payload) s = inl (handle_headers-score payload s)
  handle-score (tx raw) s = inl (handle_transaction-score raw s)
  handle-score (block raw) s = inl (handle_block-score raw s)
  handle-score (reject reason) s = inr (reason, refl, refl)
  handle-score ill_typed s = inl refl
  handle-score no_payload s = inl refl
