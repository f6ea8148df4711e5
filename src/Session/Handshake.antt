-- ===== src/Session/Handshake.antt =====
-- The handshake of two `PeerSession`s (blockchaincoin/peer.py), and what a completed one means.
use blockchain_coin.Shared.{
  ◌≡◌, ◌≢◌, refl, sym, true, false, some, List, [], ◌∷◌, is_empty, ℤ, negsuc, ltb_ℤ, ok, arith,
}
use blockchain_coin.Text.{Text, text_eq, text_eq_iff}
use blockchain_coin.Crypto.{Primitives}
use blockchain_coin.Network.Payloads.{PeerMessage, verack, version}
use blockchain_coin.Network.Messages.{validate_payload, validate_version_payload}
use blockchain_coin.Session.State.{
  PeerSession, new_session, handshake_complete, start_handshake, send_verack,
}
use blockchain_coin.Session.Handlers.{
  answer_opening, answer_verack, handle_version, handle_verack, handle, settle, receive,
}

-- What the opening message must hold for the other side to take it
pub record CanOpen (network node_id : Text) (height : ℤ) : Type 0 where
  pub named : is_empty network ≡ false
  pub identified : is_empty node_id ≡ false
  pub high : ltb_ℤ height (negsuc 0) ≡ false

module _ ⦃prim : Primitives⦄ where
  validate_version-CanOpen :
      (network node_id : Text) (height : ℤ)
      → CanOpen network node_id height
      → validate_payload (version network height node_id) ≡ ok tt
  unfolding validate_payload validate_version_payload
  validate_version-CanOpen network node_id height c = rw (c.named, c.high, c.identified) refl

  receive_of :
      (message : PeerMessage) (s : PeerSession) {messages : List PeerMessage} {s' : PeerSession}
      → validate_payload message ≡ ok tt
      → handle message s ≡ (ok messages, s')
      → receive message s ≡ (ok messages, s')
  unfolding receive settle
  receive_of message s valid handled = rw (valid, handled, receive) refl

  -- A session on which no step of the handshake but its own opening is done, after the other's version
  abbrev after_version : Text → Text → ℤ → Text → ℤ → PeerSession
  after_version network own height other other_height = record (new_session network own height) {
    remote_node_id = some other;
    remote_height = other_height;
    version_sent = true;
    version_received = true;
    verack_sent = true;
  }

  -- A session that has not opened answers with its own version and a verack.
  receive_version-first :
      (network own other : Text) (height other_height : ℤ)
      → CanOpen network other other_height
      → other ≢ own
      → receive (version network other_height other) (new_session network own height) ≡ (
        ok (version network height own ∷ verack ∷ []),
        after_version network own height other other_height,
      )
  unfolding handle handle_version answer_opening answer_verack start_handshake send_verack
  receive_version-first network own other height other_height c apart =
      receive_of (version network other_height other) (new_session network own height)
        (validate_version-CanOpen network other other_height c)
        (rw ((text_eq_iff network network).1 refl, differs other own apart) refl)
    where
      differs : (p q : Text) → p ≢ q → text_eq p q ≡ false
      differs p q h = ground (arith, text_eq_iff p q)

  -- One that has opened answers with a verack.
  receive_version-opened :
      (network own other : Text) (height other_height : ℤ)
      → CanOpen network other other_height
      → other ≢ own
      → receive
          (version network other_height other)
          (start_handshake (new_session network own height)).1
        ≡ (ok (verack ∷ []), after_version network own height other other_height)
  unfolding handle handle_version answer_opening answer_verack start_handshake send_verack
  receive_version-opened network own other height other_height c apart =
      receive_of (version network other_height other)
        (start_handshake (new_session network own height)).1
        (validate_version-CanOpen network other other_height c)
        (rw ((text_eq_iff network network).1 refl, differs other own apart) refl)
    where
      differs : (p q : Text) → p ≢ q → text_eq p q ≡ false
      differs p q h = ground (arith, text_eq_iff p q)

  receive_verack :
      (network own other : Text) (height other_height : ℤ)
      → receive verack (after_version network own height other other_height) ≡ (
        ok [],
        record (after_version network own height other other_height) { verack_received = true },
      )
  unfolding receive settle handle handle_verack validate_payload
  receive_verack network own other height other_height = refl

  -- A session that has completed its handshake with this peer
  pub record HasMet (s : PeerSession) (other : Text) (other_height : ℤ) : Type 0 where
    pub complete : handshake_complete s ≡ true
    pub met : s.remote_node_id ≡ some other
    pub as_high : s.remote_height ≡ other_height
    pub no_misbehavior : s.misbehavior_score ≡ 0

  -- Two new sessions on one network, under different node ids, with a network, ids and heights that a
  -- version may hold: where one opens and each receives in turn what the other has sent, the second
  -- answers with its own version and a verack, the first with a verack, and both have then completed the
  -- handshake, know each other's id and height, and have counted no misbehavior.
  pub handshake-HasMet :
      (network first second : Text) (height_first height_second : ℤ)
      → CanOpen network first height_first
      → CanOpen network second height_second
      → first ≢ second
      → let (opening, a) = start_handshake (new_session network first height_first) in
        let answer = version network height_second second in
        (b a' a'' b' : PeerSession) × (receive opening (new_session network second height_second)
          ≡ (ok (answer ∷ verack ∷ []), b))
        × (receive answer a ≡ (ok (verack ∷ []), a'))
        × (receive verack a' ≡ (ok [], a''))
        × (receive verack b ≡ (ok [], b'))
        × HasMet a'' second height_second
        × HasMet b' first height_first
  unfolding start_handshake
  handshake-HasMet network first second height_first height_second c d apart = (
    after_version network second height_second first height_first,
    after_version network first height_first second height_second,
    record (after_version network first height_first second height_second) {
      verack_received = true;
    },
    record (after_version network second height_second first height_first) {
      verack_received = true;
    },
    receive_version-first network second first height_second height_first c apart,
    receive_version-opened network first second height_first height_second d (λ e. apart (sym e)),
    receive_verack network first second height_first height_second,
    receive_verack network second first height_second height_first,
    record { complete = refl; met = refl; as_high = refl; no_misbehavior = refl },
    record { complete = refl; met = refl; as_high = refl; no_misbehavior = refl },
  )
