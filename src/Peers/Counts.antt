-- ===== src/Peers/Counts.antt =====
-- The limits on connections and the delays of the peer manager (blockchaincoin/peers.py).
use blockchain_coin.Shared.{
  max_ℤ, min_ℤ, ℕ, zero, suc, ◌+◌, ◌*◌, ◌^◌, ◌≤◌, ◌≡◌, refl, ap, ◌∙◌, Bool, true, false, not, ◌&&◌,
  some, none, List, [], ◌∷◌, ℤ, pos, negsuc, ◌-ℤ◌, ◌≤ℤ◌, ◌<ℤ◌, leb_ℤ, Result, ok, Result-cases,
  Option-cases, inl, inr, arith, Dict, lookup, insert, raise_if, bind-eq-ok, raise_if-eq-ok, length,
  take, subst,
}
use native.Mathlib.Nat.{pow-suc}
use blockchain_coin.Text.{Text, text_equality}
use blockchain_coin.Peers.Records.{
  PeerManagerError, peer_banned, inbound_limit, outbound_limit, PeerRecord, is_banned, is_connected,
  clear_expired_ban, connecting, new_record, validate_address, times,
}
use blockchain_coin.Peers.Manager.{
  Limits, PeerAddressManager, active_count, outbound_count, inbound_count, check_limits, connect,
  backoff, mark_connecting, add_peer, seen_again, capped, slice_to, select_outbound,
  eligible_outbound,
}

-- An entry more is active, at most.
active_count-insert :
    (direction : Bool) (a : Text) (r : PeerRecord) (peers : Dict Text PeerRecord)
    → active_count direction (insert a r peers) ≤ active_count direction peers + 1
unfolding active_count
active_count-insert direction a r [] = ground arith
active_count-insert direction a r (entry ∷ rest) =
    ground (arith, active_count-insert direction a r rest)

abbrev pub limit_of : Bool → Limits → ℤ
limit_of true l = l.max_inbound
limit_of false l = l.max_outbound

check_limits-room :
    (inbound : Bool) (r : PeerRecord) (m : PeerAddressManager) {u : Unit {0}}
    → check_limits inbound r m ≡ ok u
    → is_connected r.state ≡ false
    → pos (active_count inbound m.peers) <ℤ limit_of inbound m.limits
unfolding check_limits
check_limits-room true r m h apart =
    let (_, e₁, h₁) = bind-eq-ok (raise_if (is_banned r.state) peer_banned) _ h in
    let (_, e₂, h₂) =
      bind-eq-ok
        (raise_if (leb_ℤ m.limits.max_inbound (pos (inbound_count m)) && not (is_connected r.state))
          inbound_limit)
        _ h₁ in
    let free = raise_if-eq-ok _ inbound_limit e₂ in ground arith
check_limits-room false r m h apart =
    let (_, e₁, h₁) = bind-eq-ok (raise_if (is_banned r.state) peer_banned) _ h in
    let free =
      raise_if-eq-ok
        (leb_ℤ m.limits.max_outbound (pos (outbound_count m)) && not (is_connected r.state))
        outbound_limit h₁ in
    ground arith

clear_expired_ban-apart :
    (now : ℤ) (r : PeerRecord)
    → is_connected r.state ≡ false
    → is_connected (clear_expired_ban now r).state ≡ false
unfolding clear_expired_ban is_connected
clear_expired_ban-apart now r h = ground arith

connect-limit :
    (a : Text) (now : ℤ) (inbound : Bool) (r : PeerRecord) (m : PeerAddressManager)
    {r' : PeerRecord}
    → is_connected r.state ≡ false
    → (connect a now inbound r m).0 ≡ ok r'
    → pos (active_count inbound (connect a now inbound r m).1.peers) ≤ℤ limit_of inbound m.limits
unfolding connect
connect-limit a now inbound r m apart h =
    let cleared = clear_expired_ban now r in
    let m' : PeerAddressManager = record m { peers = insert a cleared m.peers } in
    let started : PeerRecord = record cleared { state = connecting; inbound = inbound } in
    elim (Result-cases (check_limits inbound cleared m')) [
      | inr (x, e) ↦ absurd (cc (rw (e, connect) at h))
      | inl (u, e) ↦
          let room = check_limits-room inbound cleared m' e (clear_expired_ban-apart now r apart) in
          let more = active_count-insert inbound a started m'.peers in rw (e, connect) (omega arith)
    ]

-- The record and the limits that `add_peer` leaves for `mark_connecting`.
add_peer-apart :
    (a : Text) (now : ℤ) (inbound : Bool) (m : PeerAddressManager) {r : PeerRecord}
    → ((old : PeerRecord) → lookup a m.peers ≡ some old → is_connected old.state ≡ false)
    → (add_peer a now inbound m).0 ≡ ok r
    → (is_connected r.state ≡ false) × ((add_peer a now inbound m).1.limits ≡ m.limits)
unfolding add_peer seen_again is_connected
add_peer-apart a now inbound m {r} apart h = elim (Result-cases (validate_address a)) [
  | inr (x, e) ↦ absurd (cc (rw (e, add_peer) at h))
  | inl (u, e) ↦ elim (Option-cases (lookup a m.peers)) [
    | inl found ↦
        let h' : ◌≡◌ {A = Result PeerManagerError PeerRecord} (ok (new_record a now inbound))
            (ok r) =
          rw (e, found, add_peer) at h in
        let same : new_record a now inbound ≡ r = cc in
        (rw (← same) refl, rw (e, found, add_peer) refl)
    | inr (old, found) ↦
        let h' : ◌≡◌ {A = Result PeerManagerError PeerRecord} (ok (seen_again now inbound old))
            (ok r) =
          rw (e, found, add_peer) at h in
        let same : seen_again now inbound old ≡ r = cc in
        (rw (← same) (apart old found), rw (e, found, add_peer) refl)
  ]
]

-- Where `mark_connecting` returns, for an address that is new or whose peer is not connected, the
-- connecting and connected peers of that direction are no more than its limit.
pub mark_connecting-limit :
    (a : Text) (now : ℤ) (inbound : Bool) (m : PeerAddressManager) (r' : PeerRecord)
    → ((old : PeerRecord) → lookup a m.peers ≡ some old → is_connected old.state ≡ false)
    → (mark_connecting a now inbound m).0 ≡ ok r'
    → pos (active_count inbound (mark_connecting a now inbound m).1.peers)
      ≤ℤ limit_of inbound m.limits
unfolding mark_connecting
mark_connecting-limit a now inbound m r' apart h =
    elim (Result-cases (add_peer a now inbound m).0) [
      | inr (x, e) ↦ absurd (cc (rw (e, mark_connecting) at h))
      | inl (r, e) ↦
          let m₁ = (add_peer a now inbound m).1 in
          let (still_apart, limits) = add_peer-apart a now inbound m apart e in
          let h' : (connect a now inbound r m₁).0 ≡ ok r' = rw (e, mark_connecting) at h in
          let within : pos (active_count inbound (mark_connecting a now inbound m).1.peers)
              ≤ℤ limit_of inbound m₁.limits =
            rw (e, mark_connecting) (connect-limit a now inbound r m₁ still_apart h') in
          subst
            (λ l.
              pos (active_count inbound (mark_connecting a now inbound m).1.peers)
              ≤ℤ limit_of inbound l)
            limits within
    ]

take-length : (n : ℕ) (rs : List PeerRecord) → length (take n rs) ≤ n
take-length zero rs = omega arith
take-length (suc n) [] = omega arith
take-length (suc n) (r ∷ rs) = omega (arith, take-length n rs)

slice_to-length :
    (count : ℤ) (rs : List PeerRecord) → pos 0 ≤ℤ count → pos (length (slice_to count rs)) ≤ℤ count
unfolding slice_to
slice_to-length (pos n) rs h = omega (arith, take-length n rs)
slice_to-length (negsuc n) rs h = absurd (omega arith)

-- `select_outbound`, without a limit or with one that is not negative, returns no more peers than
-- outbound connections are left, nor than the limit.
pub select_outbound-length :
    (now : ℤ) (limit : ℕ) (m : PeerAddressManager)
    → (pos (length (select_outbound now none m).0)
        ≤ℤ max_ℤ (pos 0) (m.limits.max_outbound -ℤ pos (outbound_count m)))
      × (pos (length (select_outbound now (some (pos limit)) m).0)
          ≤ℤ max_ℤ (pos 0) (m.limits.max_outbound -ℤ pos (outbound_count m)))
      × (length (select_outbound now (some (pos limit)) m).0 ≤ limit)
unfolding select_outbound capped
select_outbound-length now limit m =
    let left = max_ℤ (pos 0) (m.limits.max_outbound -ℤ pos (outbound_count m)) in
    let found = (eligible_outbound now m).0 in
    let some_left = left_nonneg (m.limits.max_outbound -ℤ pos (outbound_count m)) in
    let capped_length =
      slice_to-length (min_ℤ (pos limit) left) found (min_nonneg limit left some_left) in
    (
      slice_to-length left found some_left,
      (min_bounds limit left (length (slice_to (min_ℤ (pos limit) left) found)) capped_length).0,
      (min_bounds limit left (length (slice_to (min_ℤ (pos limit) left) found)) capped_length).1,
    )
  where
    left_nonneg : (a : ℤ) → pos 0 ≤ℤ max_ℤ (pos 0) a
    left_nonneg a = ground arith

    min_nonneg : (n : ℕ) (a : ℤ) → pos 0 ≤ℤ a → pos 0 ≤ℤ min_ℤ (pos n) a
    min_nonneg n a h = ground arith

    min_bounds : (n : ℕ) (a : ℤ) (k : ℕ) → pos k ≤ℤ min_ℤ (pos n) a → (pos k ≤ℤ a) × (k ≤ n)
    min_bounds n a k h = (ground arith, ground arith)

the_next : (n : ℕ) → n + 1 ≡ suc n
the_next n = omega arith

times_doubled : (a : ℤ) (n : ℕ) → pos 0 ≤ℤ a → times a (2 ^ n) ≤ℤ times a (2 ^ (n + 1))
unfolding times
times_doubled (pos a) n h =
    let one_more : 2 ^ (n + 1) ≡ 2 ^ n * 2 = (ap (λ k. 2 ^ k) (the_next n)) ∙ pow-suc 2 n in
    rw one_more (grind arith)
times_doubled (negsuc a) n h = absurd (omega arith)

times_nonneg : (a : ℤ) (n : ℕ) → pos 0 ≤ℤ a → pos 0 ≤ℤ times a n
unfolding times
times_nonneg (pos a) n h = omega arith
times_nonneg (negsuc a) n h = absurd (omega arith)

-- Where the base and the maximum are not negative, the delay after the failure number `n + 1` is
-- not negative, no more than the maximum, and no more than the delay after the next failure.
pub backoff-bounds :
    (l : Limits) (n : ℕ)
    → pos 0 ≤ℤ l.base_backoff_seconds
    → pos 0 ≤ℤ l.max_backoff_seconds
    → (pos 0 ≤ℤ backoff l n)
      × (backoff l n ≤ℤ l.max_backoff_seconds)
      × (backoff l n ≤ℤ backoff l (n + 1))
unfolding backoff
backoff-bounds l n h k =
    bounds l.max_backoff_seconds (times l.base_backoff_seconds (2 ^ n))
      (times l.base_backoff_seconds (2 ^ (n + 1))) k (times_nonneg l.base_backoff_seconds (2 ^ n) h)
      (times_doubled l.base_backoff_seconds n h)
  where
    bounds :
        (a b c : ℤ)
        → pos 0 ≤ℤ a
        → pos 0 ≤ℤ b
        → b ≤ℤ c
        → (pos 0 ≤ℤ min_ℤ a b) × (min_ℤ a b ≤ℤ a) × (min_ℤ a b ≤ℤ min_ℤ a c)
    bounds a b c h k l = (ground arith, ground arith, ground arith)
