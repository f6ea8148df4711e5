-- ===== src/Session/State.antt =====
-- The state of `PeerSession` (blockchaincoin/peer.py) and its methods. A set is the list of its elements,
-- each once. A method returns what it returned or raised beside the session that it leaves.
use blockchain_coin.Shared.{
  map, ℕ, Bool, true, false, not, ◌&&◌, ◌||◌, Option, none, List, [], ◌∷◌, ◌++◌, ℤ, pos, negsuc,
  ltb_ℤ, eqb_ℤ, if◌then◌else◌, Result, ok, err,
}
use blockchain_coin.Text.{Text, text_eq}
use blockchain_coin.Failure.{Error}
use blockchain_coin.Network.Payloads.{
  InventoryVector, NetworkError, PeerMessage, getdata, inv, item_fields, ping, verack, version,
}

-- PeerError by its messages, NetworkError, and what passes through `receive`.
pub data SessionError : Type 0 where
  verack_too_early nonce_negative other_network same_node_id unexpected_verack : SessionError
  pong_not_pending known_inventory_full requested_inventory_full : SessionError
  network_raises : NetworkError → SessionError
  consensus_raises : Error → SessionError

-- `(item.kind, item.hash)`
abbrev pub Key : Type 0
Key = Text × Text

pub record PeerSession : Type 0 where
  pub network : Text
  pub node_id : Text
  pub height : ℤ
  pub remote_node_id : Option Text
  pub remote_height : ℤ
  pub version_sent : Bool
  pub version_received : Bool
  pub verack_sent : Bool
  pub verack_received : Bool
  pub pending_pings : List ℤ
  pub known_inventory : List Key
  pub requested_inventory : List Key
  pub misbehavior_score : ℕ
  pub max_inventory_items : ℤ

-- A new session, with the default of `max_inventory_items`
abbrev pub new_session : Text → Text → ℤ → PeerSession
new_session network node_id height = record {
  network = network;
  node_id = node_id;
  height = height;
  remote_node_id = none;
  remote_height = negsuc 0;
  version_sent = false;
  version_received = false;
  verack_sent = false;
  verack_received = false;
  pending_pings = [];
  known_inventory = [];
  requested_inventory = [];
  misbehavior_score = 0;
  max_inventory_items = pos 10_000;
}

abbrev pub handshake_complete : PeerSession → Bool
handshake_complete s =
    s.version_sent && (s.version_received && (s.verack_sent && s.verack_received))

abbrev pub Outcome : Type 0 → Type 0
Outcome A = Result SessionError A × PeerSession

unfoldable pub has_key : Key → List Key → Bool
has_key k [] = false
has_key k (q ∷ qs) = (text_eq q.0 k.0 && text_eq q.1 k.1) || has_key k qs

-- `set.add`
unfoldable pub add_key : Key → List Key → List Key
add_key k keys = if has_key k keys then keys else keys ++ k ∷ []

unfoldable pub has_ping : ℤ → List ℤ → Bool
has_ping n [] = false
has_ping n (m ∷ ms) = eqb_ℤ m n || has_ping n ms

unfoldable pub add_ping : ℤ → List ℤ → List ℤ
add_ping n ms = if has_ping n ms then ms else ms ++ n ∷ []

unfoldable pub remove_ping : ℤ → List ℤ → List ℤ
remove_ping n [] = []
remove_ping n (m ∷ ms) = let rest = remove_ping n ms in if eqb_ℤ m n then ms else m ∷ rest

abbrev pub key_of : InventoryVector → Key
key_of item = (item.kind, item.hash)

unfoldable pub add_items : List InventoryVector → List Key → List Key
add_items [] keys = keys
add_items (item ∷ items) keys = add_items items (add_key (key_of item) keys)

unfoldable pub start_handshake : PeerSession → PeerMessage × PeerSession
start_handshake s = (version s.network s.height s.node_id, record s { version_sent = true })

unfoldable pub send_verack : PeerSession → Outcome PeerMessage
send_verack s =
    if not s.version_received
    then (err verack_too_early, s)
    else (ok verack, record s { verack_sent = true })

unfoldable pub send_ping : ℤ → PeerSession → Outcome PeerMessage
send_ping nonce s =
    if ltb_ℤ nonce (pos 0)
    then (err nonce_negative, s)
    else (ok (ping nonce), record s { pending_pings = add_ping nonce s.pending_pings })

unfoldable pub announce : List InventoryVector → PeerSession → PeerMessage × PeerSession
announce items s =
    (inv (map item_fields items), record s { known_inventory = add_items items s.known_inventory })

unfoldable pub request : List InventoryVector → PeerSession → PeerMessage × PeerSession
request items s = (
  getdata (map item_fields items),
  record s { requested_inventory = add_items items s.requested_inventory },
)
