-- ===== src/Peers/Bans.antt =====
-- A ban holds until it ends: no sequence of calls of the peer manager (blockchaincoin/peers.py) lifts
-- it before.
pub mod Calls
pub mod History
use blockchain_coin.Shared.{
  ℕ, suc, ◌+◌, ◌≡◌, refl, sym, ap, ◌∙◌, Bool, true, false, not, Option, some, none, List, [], ◌∷◌,
  ℤ, pos, ◌+ℤ◌, ◌≤ℤ◌, ◌<ℤ◌, int_laws, leb_ℤ, ltb_ℤ, if◌then◌else◌, Result, ok, err, Result-cases,
  Option-cases, Bool-cases, inl, inr, arith, Dict, lookup, insert, lookup-insert, ◌==◌, All, subst,
  raise_if, bind, bind-eq-ok, raise_if-eq-ok, beq_self,
}
use blockchain_coin.Text.{Text, text_equality}
use blockchain_coin.Peers.Records.{
  connecting, connected, disconnected, PeerManagerError, peer_banned, PeerRecord, is_banned,
  clear_expired_ban, validate_address, new_record,
}
use blockchain_coin.Peers.Manager.{
  Limits, PeerAddressManager, with_peer, store, seen_again, add_peer, check_limits, connect,
  mark_connecting, mark_connected, mark_disconnected, failed, mark_failure, ban_record, ban_peer,
  report_misbehavior, clear_all, eligible_outbound,
}

-- A call that changes the manager.
pub data Operation : Type 0 where
  adds marks_connecting : Text → ℤ → Bool → Operation
  marks_connected marks_disconnected marks_failure bans : Text → ℤ → Operation
  reports : Text → ℤ → ℤ → Operation
  lists : ℤ → Operation

unfoldable pub step : Operation → PeerAddressManager → PeerAddressManager
step (adds a now inbound) m = (add_peer a now inbound m).1
step (marks_connecting a now inbound) m = (mark_connecting a now inbound m).1
step (marks_connected a now) m = (mark_connected a now m).1
step (marks_disconnected a now) m = (mark_disconnected a now m).1
step (marks_failure a now) m = (mark_failure a now m).1
step (bans a now) m = (ban_peer a now m).1
step (reports a score now) m = (report_misbehavior a score now m).1
step (lists now) m = (eligible_outbound now m).1

abbrev pub time : Operation → ℤ
time (adds a now inbound) = now
time (marks_connecting a now inbound) = now
time (marks_connected a now) = now
time (marks_disconnected a now) = now
time (marks_failure a now) = now
time (bans a now) = now
time (reports a score now) = now
time (lists now) = now

unfoldable pub run : List Operation → PeerAddressManager → PeerAddressManager
run [] m = m
run (o ∷ os) m = run os (step o m)

-- A record that is banned until `t` or later.
abbrev pub IsBanned : ℤ → PeerRecord → Type 0
IsBanned t r = (is_banned r.state ≡ true) × (t ≤ℤ r.banned_until)

-- The peer `a` is banned until `t` or later, under a ban of `seconds`.
pub record IsBarred (a : Text) (t seconds : ℤ) (m : PeerAddressManager) : Type 0 where
  pub entry : PeerRecord
  pub found : lookup a m.peers ≡ some entry
  pub held : IsBanned t entry
  pub same_seconds : m.limits.ban_seconds ≡ seconds

-- A time within the ban, at which a new ban would not end sooner.
abbrev pub IsWithin : ℤ → ℤ → ℤ → Type 0
IsWithin t seconds now = (now <ℤ t) × (t ≤ℤ now +ℤ seconds)

pub clear_expired_ban-IsBanned :
    (t now : ℤ) (r : PeerRecord) → now <ℤ t → IsBanned t r → clear_expired_ban now r ≡ r
unfolding clear_expired_ban
clear_expired_ban-IsBanned t now r before (barred, until) = rw barred (ground arith)

-- Another value for the entry of some address.
pub insert-IsBarred :
    (a b : Text) (t seconds : ℤ) (r' : PeerRecord) (m : PeerAddressManager)
    → IsBarred a t seconds m
    → ((r : PeerRecord) → lookup b m.peers ≡ some r → IsBanned t r → IsBanned t r')
    → IsBarred a t seconds (record m { peers = insert b r' m.peers })
insert-IsBarred a b t seconds r' m h keeps = elim (Bool-cases (b == a)) [
  | inl e ↦
      let same : b ≡ a = (text_equality.same_iff b a).0 e in
      record {
        entry = r';
        found = rw (lookup-insert a b r' m.peers, e) refl;
        held = keeps h.entry (rw same h.found) h.held;
        same_seconds = h.same_seconds;
      }
  | inr e ↦ record {
    entry = h.entry;
    found = rw (lookup-insert a b r' m.peers, e) h.found;
    held = h.held;
    same_seconds = h.same_seconds;
  }
]
