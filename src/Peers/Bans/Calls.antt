-- ===== src/Peers/Bans/Calls.antt =====
-- Each method of the peer manager (blockchaincoin/peers.py) keeps a ban that has not ended.
use blockchain_coin.Shared.{
  ◌≡◌, refl, ap, ◌∙◌, Bool, false, some, [], ◌∷◌, ℤ, pos, ◌+ℤ◌, ◌≤ℤ◌, ◌<ℤ◌, leb_ℤ, ltb_ℤ,
  if◌then◌else◌, Result, ok, Result-cases, Option-cases, Bool-cases, inl, inr, Dict, lookup, insert,
  lookup-insert, ◌==◌, subst, raise_if, bind-eq-ok, raise_if-eq-ok, beq_self,
}
use blockchain_coin.Text.{Text, text_equality}
use blockchain_coin.Peers.Records.{
  connecting, connected, PeerManagerError, peer_banned, PeerRecord, is_banned, clear_expired_ban,
  validate_address, new_record,
}
use blockchain_coin.Peers.Manager.{
  PeerAddressManager, with_peer, store, seen_again, add_peer, check_limits, connect,
  mark_connecting, mark_connected, ban_record, report_misbehavior, clear_all,
}
use blockchain_coin.Peers.Bans.{IsBanned, IsBarred, insert-IsBarred, clear_expired_ban-IsBanned}

pub with_peer-IsBarred :
    (a b : Text) (t seconds : ℤ) (m : PeerAddressManager)
    (k : PeerRecord → Result PeerManagerError PeerRecord × PeerAddressManager)
    → IsBarred a t seconds m
    → ((r : PeerRecord) → lookup b m.peers ≡ some r → IsBarred a t seconds (k r).1)
    → IsBarred a t seconds (with_peer b m k).1
with_peer-IsBarred a b t seconds m k h next = elim (Option-cases (lookup b m.peers)) [
  | inl e ↦ rw (e, with_peer) h
  | inr (r, e) ↦ rw (e, with_peer) (next r e)
]

-- A banned record is not `disconnected` by what would be done to a record that is not banned.
pub add_peer-IsBarred :
    (a b : Text) (t seconds now : ℤ) (inbound : Bool) (m : PeerAddressManager)
    → IsBarred a t seconds m
    → IsBarred a t seconds (add_peer b now inbound m).1
unfolding add_peer seen_again
add_peer-IsBarred a b t seconds now inbound m h = elim (Result-cases (validate_address b)) [
  | inr (x, e) ↦ rw (e, add_peer) h
  | inl (u, e) ↦ elim (Option-cases (lookup b m.peers)) [
    | inl none_yet ↦
        rw (e, none_yet, add_peer)
          (insert-IsBarred a b t seconds (new_record b now inbound) m h
            (λ r found held. absurd (cc)))
    | inr (r, found) ↦
        rw (e, found, add_peer)
          (insert-IsBarred a b t seconds (seen_again now inbound r) m h
            (λ r' found' held. let same : r' ≡ r = cc in subst (IsBanned t) same held))
  ]
]

check_limits-eq-ok :
    (inbound : Bool) (r : PeerRecord) (m : PeerAddressManager) {u : Unit {0}}
    → check_limits inbound r m ≡ ok u
    → is_banned r.state ≡ false
unfolding check_limits
check_limits-eq-ok inbound r m h =
    let (_, e, _) = bind-eq-ok (raise_if (is_banned r.state) peer_banned) _ h in
    raise_if-eq-ok (is_banned r.state) peer_banned e

connect-IsBarred :
    (a b : Text) (t seconds now : ℤ) (inbound : Bool) (r : PeerRecord) (m : PeerAddressManager)
    → now <ℤ t
    → lookup b m.peers ≡ some r
    → IsBarred a t seconds m
    → IsBarred a t seconds (connect b now inbound r m).1
unfolding connect
connect-IsBarred a b t seconds now inbound r m early found h =
    let cleared = clear_expired_ban now r in
    let m' : PeerAddressManager = record m { peers = insert b cleared m.peers } in
    let h' : IsBarred a t seconds m' = insert-IsBarred a b t seconds cleared m h λ r' found' held.
      let same : r' ≡ r = cc in
      let held' = subst (IsBanned t) same held in
      rw (clear_expired_ban-IsBanned t now r early held') held' in
    elim (Result-cases (check_limits inbound cleared m')) [
      | inr (x, e) ↦ rw (e, connect) h'
      | inl (u, e) ↦
          let free = check_limits-eq-ok inbound cleared m' e in
          let stored : lookup b m'.peers ≡ some cleared =
            rw (lookup-insert b b cleared m.peers, beq_self b) refl in
          rw (e, connect)
            (insert-IsBarred a b t seconds
              (record cleared { state = connecting; inbound = inbound }) m' h'
              (λ r' found' held. absurd (cc)))
    ]

store-found :
    (b : Text) (r : PeerRecord) (m : PeerAddressManager) → lookup b (store b r m).1.peers ≡ some r
store-found b r m = rw (lookup-insert b b r m.peers, beq_self b) refl

add_peer-found :
    (b : Text) (now : ℤ) (inbound : Bool) (m : PeerAddressManager) {r : PeerRecord}
    → (add_peer b now inbound m).0 ≡ ok r
    → lookup b (add_peer b now inbound m).1.peers ≡ some r
unfolding add_peer
add_peer-found b now inbound m {r} h = elim (Result-cases (validate_address b)) [
  | inr (x, e) ↦ absurd (cc (rw (e, add_peer) at h))
  | inl (u, e) ↦ elim (Option-cases (lookup b m.peers)) [
    | inl found ↦
        let fresh = new_record b now inbound in
        let h' : ◌≡◌ {A = Result PeerManagerError PeerRecord} (ok fresh) (ok r) =
          rw (e, found, add_peer) at h in
        let same : fresh ≡ r = cc in rw (e, found, add_peer) (store-found b fresh m ∙ ap some same)
    | inr (r', found) ↦
        let again = seen_again now inbound r' in
        let h' : ◌≡◌ {A = Result PeerManagerError PeerRecord} (ok again) (ok r) =
          rw (e, found, add_peer) at h in
        let same : again ≡ r = cc in rw (e, found, add_peer) (store-found b again m ∙ ap some same)
  ]
]

pub mark_connecting-IsBarred :
    (a b : Text) (t seconds now : ℤ) (inbound : Bool) (m : PeerAddressManager)
    → now <ℤ t
    → IsBarred a t seconds m
    → IsBarred a t seconds (mark_connecting b now inbound m).1
unfolding mark_connecting
mark_connecting-IsBarred a b t seconds now inbound m early h =
    let added = add_peer-IsBarred a b t seconds now inbound m h in
    elim (Result-cases (add_peer b now inbound m).0) [
      | inr (x, e) ↦ rw (e, mark_connecting) added
      | inl (r, e) ↦
          rw (e, mark_connecting)
            (connect-IsBarred a b t seconds now inbound r (add_peer b now inbound m).1 early
              (add_peer-found b now inbound m e) added)
    ]

pub mark_connected-IsBarred :
    (a b : Text) (t seconds now : ℤ) (m : PeerAddressManager)
    → now <ℤ t
    → IsBarred a t seconds m
    → IsBarred a t seconds (mark_connected b now m).1
unfolding mark_connected
mark_connected-IsBarred a b t seconds now m early h =
    with_peer-IsBarred a b t seconds m _ h λ r found.
      let cleared = clear_expired_ban now r in
      let kept : (r' : PeerRecord)
          → lookup b m.peers ≡ some r'
          → IsBanned t r'
          → IsBanned t cleared =
        λ r' found' held.
          let same : r' ≡ r = cc in
          let held' = subst (IsBanned t) same held in
          rw (clear_expired_ban-IsBanned t now r early held') held' in
      elim (Bool-cases (is_banned cleared.state)) [
        | inl e ↦ rw e (insert-IsBarred a b t seconds cleared m h kept)
        | inr e ↦ rw e (
            insert-IsBarred a b t seconds
              (record cleared {
                state = connected;
                last_seen = now;
                failures = 0;
                next_retry_at = pos 0;
              })
              m h (λ r' found' held. absurd (cc ((kept r' found' held).0))))
      ]

-- A method that leaves a banned record alone.
pub skips_banned-IsBarred :
    (a b : Text) (t seconds : ℤ) (m : PeerAddressManager) (f : PeerRecord → PeerRecord)
    → IsBarred a t seconds m
    → IsBarred a t seconds
        (with_peer b m (λ r. if is_banned r.state then (ok r, m) else store b (f r) m)).1
skips_banned-IsBarred a b t seconds m f h = with_peer-IsBarred a b t seconds m _ h λ r found.
    elim (Bool-cases (is_banned r.state)) [
      | inl e ↦ rw e h
      | inr e ↦ rw e (
          insert-IsBarred a b t seconds (f r) m h λ r' found' held.
            let same : r' ≡ r = cc in
            let held' = subst (IsBanned t) same held in absurd (cc (held'.0)))
    ]

pub ban_record-IsBarred :
    (a b : Text) (t seconds now : ℤ) (r : PeerRecord) (m : PeerAddressManager)
    → t ≤ℤ now +ℤ seconds
    → IsBarred a t seconds m
    → IsBarred a t seconds (store b (ban_record m.limits now r) m).1
unfolding ban_record is_banned
ban_record-IsBarred a b t seconds now r m late h =
    insert-IsBarred a b t seconds (ban_record m.limits now r) m h
      λ r' found' held. (refl, rw h.same_seconds late)

pub report_misbehavior-IsBarred :
    (a b : Text) (t seconds score now : ℤ) (m : PeerAddressManager)
    → t ≤ℤ now +ℤ seconds
    → IsBarred a t seconds m
    → IsBarred a t seconds (report_misbehavior b score now m).1
unfolding report_misbehavior
report_misbehavior-IsBarred a b t seconds score now m late h =
    elim (Bool-cases (ltb_ℤ score (pos 0))) [
      | inl e ↦ rw e h
      | inr e ↦ rw e (
          with_peer-IsBarred a b t seconds m _ h λ r found.
            let scored : PeerRecord = record r {
              misbehavior_score = r.misbehavior_score +ℤ score;
            } in
            elim (Bool-cases (leb_ℤ m.limits.ban_threshold (r.misbehavior_score +ℤ score))) [
              | inl over ↦ rw over (ban_record-IsBarred a b t seconds now scored m late h)
              | inr under ↦ rw under (
                  insert-IsBarred a b t seconds scored m h
                    λ r' found' held. let same : r' ≡ r = cc in subst (IsBanned t) same held)
            ])
    ]

pub clear_all-found :
    (a : Text) (t now : ℤ) (peers : Dict Text PeerRecord) {r : PeerRecord}
    → now <ℤ t
    → lookup a peers ≡ some r
    → IsBanned t r
    → lookup a (clear_all now peers) ≡ some r
unfolding clear_all
clear_all-found a t now [] early found held = found
clear_all-found a t now (entry ∷ rest) {r} early found held = elim (Bool-cases (entry.0 == a)) [
  | inl e ↦
      let same : entry.1 ≡ r = cc (rw e at found) in
      rw (e, same, clear_expired_ban-IsBanned t now r early held) refl
  | inr e ↦ rw e (clear_all-found a t now rest early (rw e at found) held)
]
