-- ===== src/Peers/Bans/History.antt =====
-- Sequences of calls of the peer manager (blockchaincoin/peers.py) during a ban.
use blockchain_coin.Shared.{
  ◌≡◌, refl, some, List, [], ◌∷◌, ℤ, ◌+ℤ◌, ◌≤ℤ◌, ◌<ℤ◌, int_laws, err, arith, lookup, lookup-insert,
  All, beq_self,
}
use blockchain_coin.Text.{Text, text_equality}
use blockchain_coin.Peers.Records.{disconnected, peer_banned, PeerRecord, is_banned}
use blockchain_coin.Peers.Manager.{
  PeerAddressManager, with_peer, mark_connected, mark_disconnected, failed, mark_failure,
  ban_record, ban_peer, eligible_outbound,
}
use blockchain_coin.Peers.Bans.{
  Operation, adds, marks_connecting, marks_connected, marks_disconnected, marks_failure, bans,
  reports, lists, step, time, run, IsBarred, IsWithin, clear_expired_ban-IsBanned,
}
use blockchain_coin.Peers.Bans.Calls.{
  with_peer-IsBarred, add_peer-IsBarred, mark_connecting-IsBarred, mark_connected-IsBarred,
  skips_banned-IsBarred, ban_record-IsBarred, report_misbehavior-IsBarred, clear_all-found,
}

step-IsBarred :
    (a : Text) (t seconds : ℤ) (o : Operation) (m : PeerAddressManager)
    → IsWithin t seconds (time o)
    → IsBarred a t seconds m
    → IsBarred a t seconds (step o m)
unfolding step mark_disconnected mark_failure ban_peer eligible_outbound
step-IsBarred a t seconds (adds b now inbound) m (early, late) h =
    add_peer-IsBarred a b t seconds now inbound m h
step-IsBarred a t seconds (marks_connecting b now inbound) m (early, late) h =
    mark_connecting-IsBarred a b t seconds now inbound m early h
step-IsBarred a t seconds (marks_connected b now) m (early, late) h =
    mark_connected-IsBarred a b t seconds now m early h
step-IsBarred a t seconds (marks_disconnected b now) m (early, late) h =
    skips_banned-IsBarred a b t seconds m
      (λ r. let r' : PeerRecord = record r { state = disconnected; next_retry_at = now } in r') h
step-IsBarred a t seconds (marks_failure b now) m (early, late) h =
    skips_banned-IsBarred a b t seconds m (failed m.limits now) h
step-IsBarred a t seconds (bans b now) m (early, late) h =
    with_peer-IsBarred a b t seconds m _ h
      λ r found. ban_record-IsBarred a b t seconds now r m late h
step-IsBarred a t seconds (reports b score now) m (early, late) h =
    report_misbehavior-IsBarred a b t seconds score now m late h
step-IsBarred a t seconds (lists now) m (early, late) h = record {
  entry = h.entry;
  found = clear_all-found a t now m.peers early h.found h.held;
  held = h.held;
  same_seconds = h.same_seconds;
}

run-IsBarred :
    (a : Text) (t seconds : ℤ) (os : List Operation) (m : PeerAddressManager)
    → All (λ o. IsWithin t seconds (time o)) os
    → IsBarred a t seconds m
    → IsBarred a t seconds (run os m)
unfolding run
run-IsBarred a t seconds [] m within h = h
run-IsBarred a t seconds (o ∷ os) m within h =
    run-IsBarred a t seconds os (step o m) within.1 (step-IsBarred a t seconds o m within.0 h)

mark_connected-raises :
    (a : Text) (t seconds now : ℤ) (m : PeerAddressManager)
    → now <ℤ t
    → IsBarred a t seconds m
    → (mark_connected a now m).0 ≡ err peer_banned
unfolding mark_connected
mark_connected-raises a t seconds now m early h =
    rw (h.found, with_peer, clear_expired_ban-IsBanned t now h.entry early h.held, h.held.0) refl

-- A time from the start of a ban to before its end.
abbrev pub IsDuring : ℤ → ℤ → ℤ → Type 0
IsDuring start seconds now = (start ≤ℤ now) × (now <ℤ start +ℤ seconds)

-- The ban of a known peer at `start` is still in force after any sequence of calls at times from
-- `start` to before its end, and `mark_connected` then raises at any such time.
pub ban_peer-IsBarred :
    (a : Text) (start : ℤ) (os : List Operation) (m : PeerAddressManager) (r : PeerRecord) (now : ℤ)
    → lookup a m.peers ≡ some r
    → All (λ o. IsDuring start m.limits.ban_seconds (time o)) os
    → IsDuring start m.limits.ban_seconds now
    → let m' = run os (ban_peer a start m).1 in
      IsBarred a (start +ℤ m.limits.ban_seconds) m.limits.ban_seconds m'
      × ((mark_connected a now m').0 ≡ err peer_banned)
unfolding ban_peer ban_record is_banned
ban_peer-IsBarred a start os m r now found during inside =
    let seconds = m.limits.ban_seconds in
    let t = start +ℤ seconds in
    let banned_peer = ban_record m.limits start r in
    let first : IsBarred a t seconds (ban_peer a start m).1 =
      rw (found, with_peer)
        (record {
          entry = banned_peer;
          found = rw (lookup-insert a a banned_peer m.peers, beq_self a) refl;
          held = (refl, omega arith);
          same_seconds = refl;
        }) in
    let h =
      run-IsBarred a t seconds os (ban_peer a start m).1 (all_within start seconds os during)
        first in
    (h, mark_connected-raises a t seconds now (run os (ban_peer a start m).1) inside.1 h)
  where
    within : (a b c : ℤ) → a ≤ℤ c → a +ℤ b ≤ℤ c +ℤ b
    within a b c h = omega int_laws

    all_within :
        (start seconds : ℤ) (os : List Operation)
        → All (λ o. IsDuring start seconds (time o)) os
        → All (λ o. IsWithin (start +ℤ seconds) seconds (time o)) os
    all_within start seconds [] h = tt
    all_within start seconds (o ∷ os) h =
        ((h.0.1, within start seconds (time o) h.0.0), all_within start seconds os h.1)
