-- ===== src/Examples/SessionWitnesses.antt =====
-- The theorems of the frames and of the sessions, applied to a short frame and to two peers.
use blockchain_coin.Shared.{
  ◌≡◌, ◌≢◌, ◌↔◌, ◌⊎◌, none, some, List, refl, [], ◌∷◌, ◌++◌, pos, Result, ok, replicate,
}
use blockchain_coin.Text.{Text, Bytes, codes, text_eq, text_eq_iff}
use blockchain_coin.Codec.Words.{be_bytes}
use blockchain_coin.Network.Frames.{Hmac, check_key, frame_body, to_frame, read_frame}
use blockchain_coin.Network.Delivery.{read_frame-to_frame}
use blockchain_coin.Network.Payloads.{pong, verack, version}
use blockchain_coin.Network.Payloads.{BlockHeader}
use blockchain_coin.Network.Headers.{validate_header_chain}
use blockchain_coin.Network.Chain.{IsAnchor, IsChain, validate_header_chain_iff}
use blockchain_coin.Session.Penalty.{Violates, IsRefused, IsTaken, receive-score}
use blockchain_coin.Consensus.Types.{zero_hash}
use blockchain_coin.Session.State.{PeerSession, new_session, start_handshake}
use blockchain_coin.Session.Handlers.{receive}
use blockchain_coin.Session.Handshake.{CanOpen, HasMet, handshake-HasMet}
use blockchain_coin.Examples.Ledger.{toy}

-- A tag that does not look at what it signs.
abbrev tagging : Hmac
tagging = λ key signed. replicate 32 7

abbrev read_bytes : Bytes → Result (Unit {0}) Bytes
read_bytes payload = ok payload

abbrev secret : Bytes
secret = codes "secret"

abbrev framed : Bytes
unfolding frame_body be_bytes
framed = frame_body (codes "{}") ++ replicate 32 7

made : to_frame {E = Unit {0}} tagging secret (codes "{}") ≡ ok framed
unfolding to_frame check_key framed
made = refl

read_frame-to_frame_example :
    read_frame tagging read_bytes secret (framed ++ codes "BCC") ≡ ok (codes "{}", codes "BCC")
read_frame-to_frame_example =
    read_frame-to_frame tagging read_bytes secret (codes "{}") framed (codes "BCC") (codes "{}")
      refl made refl

can_open : (node_id : Text) → CanOpen (codes "main") (codes "n" ++ node_id) (pos 3)
can_open node_id = record { named = refl; identified = refl; high = refl }

apart : codes "n1" ≢ codes "n2"
unfolding text_eq
apart e = absurd (cc ((text_eq_iff (codes "n1") (codes "n2")).1 e))

handshake-HasMet_example :
    let (opening, a) = start_handshake (new_session (codes "main") (codes "n1") (pos 3)) in
    let answer = version (codes "main") (pos 3) (codes "n2") in
    (b a' a'' b' : PeerSession) × (receive opening (new_session (codes "main") (codes "n2") (pos 3))
      ≡ (ok (answer ∷ verack ∷ []), b))
    × (receive answer a ≡ (ok (verack ∷ []), a'))
    × (receive verack a' ≡ (ok [], a''))
    × (receive verack b ≡ (ok [], b'))
    × HasMet a'' (codes "n2") (pos 3)
    × HasMet b' (codes "n1") (pos 3)
handshake-HasMet_example =
    handshake-HasMet (codes "main") (codes "n1") (codes "n2") (pos 3) (pos 3) (can_open (codes "1"))
      (can_open (codes "2")) apart

abbrev low_header : BlockHeader
low_header = record {
  height = pos 0;
  previous_hash = zero_hash;
  transaction_root = zero_hash;
  difficulty = pos 0;
  timestamp = 0;
  nonce = pos 0;
  version = pos 1;
}

abbrev two_headers : List BlockHeader
two_headers = low_header ∷ record low_header { height = pos 1 } ∷ []

validate_header_chain_iff_example :
    (validate_header_chain two_headers (some zero_hash) ≡ ok two_headers)
    ↔ (IsAnchor (some zero_hash) × IsChain (some zero_hash) none two_headers)
validate_header_chain_iff_example = validate_header_chain_iff two_headers (some zero_hash)

abbrev fresh : PeerSession
fresh = new_session (codes "main") (codes "n1") (pos 3)

receive-score_example :
    (Violates (pong (pos 5)) fresh × IsRefused (pong (pos 5)) fresh)
    ⊎ (¬ Violates (pong (pos 5)) fresh × IsTaken (pong (pos 5)) fresh)
receive-score_example = receive-score (pong (pos 5)) fresh
