-- ===== src/Peers/Manager.antt =====
-- The methods of `PeerAddressManager` (blockchaincoin/peers.py).
use blockchain_coin.Shared.{
  max_ℤ, min_ℤ, ℕ, suc, ◌+◌, ◌-◌, ◌^◌, Bool, true, false, not, ◌&&◌, ◌||◌, Option, some, none, List,
  [], ◌∷◌, map, ℤ, pos, negsuc, ◌+ℤ◌, ◌-ℤ◌, leb_ℤ, ltb_ℤ, eqb_ℤ, ltb, eqb, if◌then◌else◌, length,
  take, Result, ok, err, raise_if, bind, Dict, lookup, insert,
}
use blockchain_coin.Text.{Text, text_equality, text_lt}
use blockchain_coin.Peers.Records.{
  PeerManagerError, limits_negative, threshold_not_positive, unknown_peer, peer_banned,
  inbound_limit, outbound_limit, score_negative, disconnected, connecting, connected, banned,
  PeerRecord, is_banned, is_connected, is_disconnected, is_active, times, new_record,
  clear_expired_ban, validate_address,
}

pub record Limits : Type 0 where
  pub max_outbound : ℤ
  pub max_inbound : ℤ
  pub ban_threshold : ℤ
  pub base_backoff_seconds : ℤ
  pub max_backoff_seconds : ℤ
  pub ban_seconds : ℤ

pub record PeerAddressManager : Type 0 where
  pub limits : Limits
  pub peers : Dict Text PeerRecord

-- `PeerAddressManager(...)`
unfoldable pub new_manager : Limits → Result PeerManagerError PeerAddressManager
new_manager l =
    bind (raise_if (ltb_ℤ l.max_outbound (pos 0) || ltb_ℤ l.max_inbound (pos 0)) limits_negative)
      λ _.
        bind (raise_if (leb_ℤ l.ban_threshold (pos 0)) threshold_not_positive)
          λ _. ok (record { limits = l; peers = [] })

abbrev pub Outcome : Type 0
Outcome = Result PeerManagerError PeerRecord × PeerAddressManager

-- The entry of an address after a record was assigned to, and the record itself.
abbrev pub store : Text → PeerRecord → PeerAddressManager → Outcome
store address r m = (ok r, record m { peers = insert address r m.peers })

unfoldable pub get_peer : Text → PeerAddressManager → Result PeerManagerError PeerRecord
get_peer address m = elim (lookup address m.peers) [ none ↦ err unknown_peer | some r ↦ ok r ]

-- A method that begins with `self.get_peer(address)`, and goes on with the record.
abbrev pub with_peer : Text → PeerAddressManager → (PeerRecord → Outcome) → Outcome
with_peer address m k = elim (lookup address m.peers) [
  | none ↦ (err unknown_peer, m)
  | some r ↦ k r
]

unfoldable pub seen_again : ℤ → Bool → PeerRecord → PeerRecord
seen_again now inbound r = record r {
  last_seen = max_ℤ r.last_seen now;
  inbound = r.inbound || inbound;
}

unfoldable pub add_peer : Text → ℤ → Bool → PeerAddressManager → Outcome
add_peer address now inbound m = elim (validate_address address) [
  | err e ↦ (err e, m)
  | ok _ ↦ elim (lookup address m.peers) [
    | some r ↦ store address (seen_again now inbound r) m
    | none ↦ store address (new_record address now inbound) m
  ]
]

-- How many records are active in one direction.
unfoldable pub active_count : Bool → Dict Text PeerRecord → ℕ
active_count inbound [] = 0
active_count inbound (entry ∷ rest) =
    let r = entry.1 in
    let same = if inbound then r.inbound else not r.inbound in
    let others = active_count inbound rest in
    if is_active r.state && same then others + 1 else others

abbrev pub outbound_count : PeerAddressManager → ℕ
outbound_count m = active_count false m.peers

abbrev pub inbound_count : PeerAddressManager → ℕ
inbound_count m = active_count true m.peers

-- The checks of `mark_connecting`, once the ban has been looked at.
unfoldable pub check_limits :
    Bool → PeerRecord → PeerAddressManager → Result PeerManagerError (Unit {0})
check_limits inbound r m = bind (raise_if (is_banned r.state) peer_banned) λ _.
    bind
      (raise_if
        (inbound
          && leb_ℤ m.limits.max_inbound (pos (inbound_count m))
          && not (is_connected r.state))
        inbound_limit)
      λ _.
        raise_if
          (not inbound
            && leb_ℤ m.limits.max_outbound (pos (outbound_count m))
            && not (is_connected r.state))
          outbound_limit

-- What `mark_connecting` does with the record that `add_peer` returned.
unfoldable pub connect : Text → ℤ → Bool → PeerRecord → PeerAddressManager → Outcome
connect address now inbound r m =
    let cleared = clear_expired_ban now r in
    let m' = record m { peers = insert address cleared m.peers } in
    elim (check_limits inbound cleared m') [
      | err e ↦ (err e, m')
      | ok _ ↦ store address (record cleared { state = connecting; inbound = inbound }) m'
    ]

unfoldable pub mark_connecting : Text → ℤ → Bool → PeerAddressManager → Outcome
mark_connecting address now inbound m =
    let (r, m') = add_peer address now inbound m in
    elim r [ err e ↦ (err e, m') | ok r ↦ connect address now inbound r m' ]

unfoldable pub mark_connected : Text → ℤ → PeerAddressManager → Outcome
mark_connected address now m = with_peer address m λ r.
    let cleared = clear_expired_ban now r in
    if is_banned cleared.state
    then (err peer_banned, record m { peers = insert address cleared m.peers })
    else store address
        (record cleared { state = connected; last_seen = now; failures = 0; next_retry_at = pos 0 })
        m

unfoldable pub mark_disconnected : Text → ℤ → PeerAddressManager → Outcome
mark_disconnected address now m = with_peer address m λ r.
    if is_banned r.state
    then (ok r, m)
    else store address (record r { state = disconnected; next_retry_at = now }) m

-- `min(max_backoff_seconds, base_backoff_seconds * 2 ** (failures - 1))`, after `failures + 1`
unfoldable pub backoff : Limits → ℕ → ℤ
backoff l failures = min_ℤ l.max_backoff_seconds (times l.base_backoff_seconds (2 ^ failures))

unfoldable pub failed : Limits → ℤ → PeerRecord → PeerRecord
failed l now r = record r {
  failures = r.failures + 1;
  state = disconnected;
  next_retry_at = now +ℤ backoff l r.failures;
}

unfoldable pub mark_failure : Text → ℤ → PeerAddressManager → Outcome
mark_failure address now m =
    with_peer address m
      λ r. if is_banned r.state then (ok r, m) else store address (failed m.limits now r) m

unfoldable pub ban_record : Limits → ℤ → PeerRecord → PeerRecord
ban_record l now r =
    let until = now +ℤ l.ban_seconds in
    record r { state = banned; banned_until = until; next_retry_at = until }

unfoldable pub ban_peer : Text → ℤ → PeerAddressManager → Outcome
ban_peer address now m = with_peer address m λ r. store address (ban_record m.limits now r) m

unfoldable pub report_misbehavior : Text → ℤ → ℤ → PeerAddressManager → Outcome
report_misbehavior address score now m =
    if ltb_ℤ score (pos 0)
    then (err score_negative, m)
    else with_peer address m λ r.
      let total = r.misbehavior_score +ℤ score in
      let scored = record r { misbehavior_score = total } in
      if leb_ℤ m.limits.ban_threshold total
      then store address (ban_record m.limits now scored) m
      else store address scored m

-- The sort key `(-last_seen, failures, address)`.
unfoldable pub before : PeerRecord → PeerRecord → Bool
before p q =
    ltb_ℤ q.last_seen p.last_seen
    || (eqb_ℤ p.last_seen q.last_seen
        && (ltb p.failures q.failures
            || (eqb p.failures q.failures && text_lt p.address q.address)))

-- `sorted`: a stable sort.
unfoldable pub insert_peer :
    (PeerRecord → PeerRecord → Bool) → PeerRecord → List PeerRecord → List PeerRecord
insert_peer lt r [] = r ∷ []
insert_peer lt r (q ∷ qs) =
    let rest = insert_peer lt r qs in if lt q r then q ∷ rest else r ∷ q ∷ qs

unfoldable pub sort_peers : (PeerRecord → PeerRecord → Bool) → List PeerRecord → List PeerRecord
sort_peers lt [] = []
sort_peers lt (r ∷ rs) = insert_peer lt r (sort_peers lt rs)

unfoldable pub clear_all : ℤ → Dict Text PeerRecord → Dict Text PeerRecord
clear_all now [] = []
clear_all now (entry ∷ rest) = (entry.0, clear_expired_ban now entry.1) ∷ clear_all now rest

unfoldable pub is_eligible : ℤ → PeerRecord → Bool
is_eligible now r = is_disconnected r.state && not r.inbound && leb_ℤ r.next_retry_at now

unfoldable pub eligible : ℤ → Dict Text PeerRecord → List PeerRecord
eligible now [] = []
eligible now (entry ∷ rest) =
    let others = eligible now rest in if is_eligible now entry.1 then entry.1 ∷ others else others

unfoldable pub eligible_outbound : ℤ → PeerAddressManager → List PeerRecord × PeerAddressManager
eligible_outbound now m =
    let cleared = clear_all now m.peers in
    (sort_peers before (eligible now cleared), record m { peers = cleared })

-- `items[:count]`, which counts from the end where it is negative
unfoldable pub slice_to : ℤ → List PeerRecord → List PeerRecord
slice_to (pos n) rs = take n rs
slice_to (negsuc n) rs = take (length rs - suc n) rs

-- `remaining if limit is None else min(limit, remaining)`
unfoldable pub capped : Option ℤ → ℤ → ℤ
capped none remaining = remaining
capped (some n) remaining = min_ℤ n remaining

unfoldable pub select_outbound :
    ℤ → Option ℤ → PeerAddressManager → List PeerRecord × PeerAddressManager
select_outbound now limit m =
    let remaining = max_ℤ (pos 0) (m.limits.max_outbound -ℤ pos (outbound_count m)) in
    let (found, m') = eligible_outbound now m in (slice_to (capped limit remaining) found, m')

-- The key `(misbehavior_score, last_seen, address)`, from the greatest on.
unfoldable pub evicted_before : PeerRecord → PeerRecord → Bool
evicted_before p q =
    ltb_ℤ q.misbehavior_score p.misbehavior_score
    || (eqb_ℤ p.misbehavior_score q.misbehavior_score
        && (ltb_ℤ q.last_seen p.last_seen
            || (eqb_ℤ p.last_seen q.last_seen && text_lt q.address p.address)))

unfoldable pub connected_peers : Dict Text PeerRecord → List PeerRecord
connected_peers [] = []
connected_peers (entry ∷ rest) =
    let others = connected_peers rest in
    if is_connected entry.1.state then entry.1 ∷ others else others

unfoldable pub eviction_candidates : PeerAddressManager → List PeerRecord
eviction_candidates m = sort_peers evicted_before (connected_peers m.peers)

unfoldable pub all_peers : PeerAddressManager → List PeerRecord
all_peers m = sort_peers (λ p q. text_lt p.address q.address) (map (λ entry. entry.1) m.peers)
