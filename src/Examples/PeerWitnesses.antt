-- ===== src/Examples/PeerWitnesses.antt =====
-- The theorems of the peer manager, applied to a manager of two peers.
use blockchain_coin.Shared.{
  max_ℤ, ◌+◌, ◌≤◌, ◌≡◌, refl, false, some, none, List, [], ◌∷◌, pos, ◌+ℤ◌, ◌-ℤ◌, ◌≤ℤ◌, arith, err,
  length,
}
use blockchain_coin.Text.{Text, codes, text_eq}
use blockchain_coin.Peers.Records.{
  PeerRecord, connecting, new_record, peer_banned, is_banned, is_connected, is_active,
  clear_expired_ban, validate_address, isspace,
}
use blockchain_coin.Peers.Manager.{
  Limits, PeerAddressManager, active_count, outbound_count, mark_connecting, mark_connected,
  ban_peer, select_outbound, backoff, add_peer, seen_again, connect, check_limits,
}
use blockchain_coin.Peers.Bans.{Operation, marks_connecting, marks_failure, lists, IsBarred, run}
use blockchain_coin.Peers.Bans.History.{ban_peer-IsBarred}
use blockchain_coin.Peers.Counts.{
  mark_connecting-limit, limit_of, select_outbound-length, backoff-bounds,
}

-- The defaults of the constructor, with room for one outbound connection.
abbrev limits : Limits
limits = record {
  max_outbound = pos 1;
  max_inbound = pos 32;
  ban_threshold = pos 100;
  base_backoff_seconds = pos 30;
  max_backoff_seconds = pos 3600;
  ban_seconds = pos 86400;
}

abbrev first_address : Text
first_address = codes "a:1"

abbrev other_address : Text
other_address = codes "b:1"

abbrev first_record : PeerRecord
first_record = new_record first_address (pos 5) false

abbrev manager : PeerAddressManager
manager = record {
  limits = limits;
  peers =
      (first_address, first_record) ∷ (other_address, new_record other_address (pos 9) false) ∷ [];
}

abbrev calls : List Operation
calls =
    marks_failure first_address (pos 20)
    ∷ lists (pos 30)
    ∷ marks_connecting first_address (pos 40) false
    ∷ []

ban_peer-IsBarred_example :
    let m' = run calls (ban_peer first_address (pos 10) manager).1 in
    IsBarred first_address (pos 10 +ℤ pos 86400) (pos 86400) m'
    × ((mark_connected first_address (pos 50) m').0 ≡ err peer_banned)
unfolding text_eq ◌+ℤ◌
ban_peer-IsBarred_example =
    ban_peer-IsBarred first_address (pos 10) calls manager first_record (pos 50) refl
      ((omega arith, omega arith), ((omega arith, omega arith), ((omega arith, omega arith), tt)))
      (omega arith, omega arith)

dialled : PeerRecord
dialled = record first_record { last_seen = pos 10; state = connecting }

mark_connecting-limit_example :
    pos (active_count false (mark_connecting first_address (pos 10) false manager).1.peers)
    ≤ℤ limit_of false limits
unfolding mark_connecting add_peer seen_again connect check_limits clear_expired_ban
    validate_address isspace is_banned is_connected active_count is_active text_eq dialled
mark_connecting-limit_example =
    mark_connecting-limit first_address (pos 10) false manager dialled
      (λ old found. let same : first_record ≡ old = cc in rw (← same) refl) refl

select_outbound-length_example :
    (pos (length (select_outbound (pos 100) none manager).0)
      ≤ℤ max_ℤ (pos 0) (pos 1 -ℤ pos (outbound_count manager)))
    × (pos (length (select_outbound (pos 100) (some (pos 3)) manager).0)
        ≤ℤ max_ℤ (pos 0) (pos 1 -ℤ pos (outbound_count manager)))
    × (length (select_outbound (pos 100) (some (pos 3)) manager).0 ≤ 3)
select_outbound-length_example = select_outbound-length (pos 100) 3 manager

backoff-bounds_example :
    (pos 0 ≤ℤ backoff limits 4)
    × (backoff limits 4 ≤ℤ pos 3600)
    × (backoff limits 4 ≤ℤ backoff limits (4 + 1))
backoff-bounds_example = backoff-bounds limits 4 (omega arith) (omega arith)
