-- ===== src/Peers/Records.antt =====
-- `PeerRecord` of blockchaincoin/peers.py and what the manager does to one record.
use blockchain_coin.Shared.{
  ℕ, ◌+◌, ◌*◌, ◌-◌, Bool, true, false, not, ◌&&◌, ◌||◌, [], ◌∷◌, ℤ, pos, negsuc, leb_ℤ, leb, ltb,
  eqb, if◌then◌else◌, length, is_empty, Result, raise_if, bind,
}
use blockchain_coin.Text.{Text}

-- PeerManagerError, by its messages.
pub data PeerManagerError : Type 0 where
  limits_negative threshold_not_positive unknown_peer peer_banned : PeerManagerError
  inbound_limit outbound_limit score_negative address_invalid address_too_long : PeerManagerError

pub data ConnectionState : Type 0 where
  disconnected connecting connected banned : ConnectionState

-- The number of failures is a count from 0.
pub record PeerRecord : Type 0 where
  pub address : Text
  pub last_seen : ℤ
  pub failures : ℕ
  pub misbehavior_score : ℤ
  pub state : ConnectionState
  pub next_retry_at : ℤ
  pub banned_until : ℤ
  pub inbound : Bool

-- `PeerRecord.is_banned`, on the state
unfoldable pub is_banned : ConnectionState → Bool
is_banned banned = true
is_banned connected = false
is_banned connecting = false
is_banned disconnected = false

unfoldable pub is_connected : ConnectionState → Bool
is_connected connected = true
is_connected banned = false
is_connected connecting = false
is_connected disconnected = false

unfoldable pub is_disconnected : ConnectionState → Bool
is_disconnected disconnected = true
is_disconnected banned = false
is_disconnected connecting = false
is_disconnected connected = false

-- `state in {CONNECTING, CONNECTED}`
unfoldable pub is_active : ConnectionState → Bool
is_active connecting = true
is_active connected = true
is_active disconnected = false
is_active banned = false

-- An integer times a count.
unfoldable pub times : ℤ → ℕ → ℤ
times (pos a) n = pos (a * n)
times (negsuc a) n = if eqb n 0 then pos 0 else negsuc ((a + 1) * n - 1)

-- A record with the defaults of the data class.
abbrev pub new_record : Text → ℤ → Bool → PeerRecord
new_record address now inbound = record {
  address = address;
  last_seen = now;
  failures = 0;
  misbehavior_score = pos 0;
  state = disconnected;
  next_retry_at = pos 0;
  banned_until = pos 0;
  inbound = inbound;
}

-- `_clear_expired_ban`
unfoldable pub clear_expired_ban : ℤ → PeerRecord → PeerRecord
clear_expired_ban now r =
    if is_banned r.state && leb_ℤ r.banned_until now
    then record r { state = disconnected; banned_until = pos 0 }
    else r

-- One character of `str.isspace`.
is_space_char : ℕ → Bool
is_space_char c =
    (leb 9 c && leb c 13)
    || (leb 28 c && leb c 32)
    || eqb c 133
    || eqb c 160
    || eqb c 5760
    || (leb 8192 c && leb c 8202)
    || eqb c 8232
    || eqb c 8233
    || eqb c 8239
    || eqb c 8287
    || eqb c 12288

all_space : Text → Bool
all_space [] = true
all_space (c ∷ t) = is_space_char c && all_space t

-- `str.isspace`, which is false of an empty text
unfoldable pub isspace : Text → Bool
unfolding all_space is_space_char
isspace t = not (is_empty t) && all_space t

-- `_validate_address`
unfoldable pub validate_address : Text → Result PeerManagerError (Unit {0})
validate_address address =
    bind (raise_if (is_empty address || isspace address) address_invalid)
      λ _. raise_if (ltb 255 (length address)) address_too_long
