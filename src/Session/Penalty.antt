-- ===== src/Session/Penalty.antt =====
-- Which messages `receive` of `PeerSession` (blockchaincoin/peer.py) refuses, and what it counts.
use blockchain_coin.Shared.{
  ◌+◌, ◌≡◌, ap, sym, refl, ◌∙◌, ◌⊎◌, inl, inr, true, false, List, [], ◌∷◌, Result, ok, err,
  Result-cases, Bool-cases,
}
use blockchain_coin.Text.{Text, codes}
use blockchain_coin.Crypto.{Primitives}
use blockchain_coin.Network.Payloads.{NetworkError, PeerMessage, reject}
use blockchain_coin.Network.Messages.{validate_payload}
use blockchain_coin.Session.State.{SessionError, network_raises, PeerSession}
use blockchain_coin.Session.Handlers.{handle, passes, refuse, settle, receive}
use blockchain_coin.Session.Score.{handle-score}

module _ ⦃prim : Primitives⦄ where
  -- A message that violates the rules: its payload is refused, or its handler raises, with an exception
  -- that `receive` catches.
  pub data Violates (message : PeerMessage) (s : PeerSession) : Type 0 where
    payload_refused :
        {e : NetworkError}
        → validate_payload message ≡ err e
        → passes (network_raises e) ≡ false
        → Violates message s
    handler_raises :
        {e : SessionError}
        → validate_payload message ≡ ok tt
        → (handle message s).0 ≡ err e
        → passes e ≡ false
        → Violates message s

  -- Answered with a reject, and counted
  pub record IsRefused (message : PeerMessage) (s : PeerSession) : Type 0 where
    pub answer : (receive message s).0 ≡ ok (reject (codes "invalid message") ∷ [])
    pub counted : (receive message s).1.misbehavior_score ≡ s.misbehavior_score + 1

  -- Not counted, or the peer's own reject
  pub data IsTaken (message : PeerMessage) (s : PeerSession) : Type 0 where
    uncounted : (receive message s).1.misbehavior_score ≡ s.misbehavior_score → IsTaken message s
    rejected :
        (reason : Text)
        → message ≡ reject reason
        → receive message s ≡ (ok [], record s { misbehavior_score = s.misbehavior_score + 1 })
        → IsTaken message s

  -- What `settle` leaves as it is, and what it answers
  settle-cases :
      (r : Result SessionError (List PeerMessage)) (s : PeerSession)
      → ((settle (r, s) ≡ (r, s)) × ((e : SessionError) → r ≡ err e → passes e ≡ true))
        ⊎ ((e : SessionError) × (r ≡ err e) × (passes e ≡ false) × (settle (r, s) ≡ refuse s))
  unfolding settle
  settle-cases (ok messages) s = inl (refl, λ e h. absurd (cc))
  settle-cases (err e) s = elim (Bool-cases (passes e)) [
    | inl escapes ↦ inl (rw (escapes, settle) refl, λ e' h. cc)
    | inr caught ↦ inr (e, refl, caught, rw (caught, settle) refl)
  ]

  receive_valid :
      (message : PeerMessage) (s : PeerSession)
      → validate_payload message ≡ ok tt
      → receive message s ≡ settle (handle message s)
  unfolding receive
  receive_valid message s valid = rw (valid, receive) refl

  receive_invalid :
      (message : PeerMessage) (s : PeerSession) {e : NetworkError}
      → validate_payload message ≡ err e
      → receive message s ≡ settle (err (network_raises e), s)
  unfolding receive
  receive_invalid message s invalid = rw (invalid, receive) refl

  IsRefused-of :
      (message : PeerMessage) (s after : PeerSession)
      → receive message s ≡ refuse after
      → after.misbehavior_score ≡ s.misbehavior_score
      → IsRefused message s
  unfolding refuse
  IsRefused-of message s after e kept = record {
    answer = ap (λ o. o.0) e;
    counted = ap (λ o. o.1.misbehavior_score) e ∙ ap (λ n. n + 1) kept;
  }

  receive_invalid-cases :
      (message : PeerMessage) (s : PeerSession) {e : NetworkError}
      → validate_payload message ≡ err e
      → (Violates message s × IsRefused message s) ⊎ (¬ Violates message s × IsTaken message s)
  receive_invalid-cases message s {e} invalid = elim (settle-cases (err (network_raises e)) s) [
    | inl (kept, escapes) ↦ inr (
      innocent escapes,
      uncounted (ap (λ o. o.1.misbehavior_score) (receive_invalid message s invalid ∙ kept)),
    )
    | inr (e', raised, caught, refused) ↦ inl (
      payload_refused invalid (cc),
      IsRefused-of message s s (receive_invalid message s invalid ∙ refused) refl,
    )
  ]
    where
      innocent :
          ((e' : SessionError)
            → (let r : Result SessionError (List PeerMessage) = err (network_raises e) in r)
              ≡ err e'
            → passes e' ≡ true)
          → ¬ Violates message s
      innocent escapes (payload_refused h caught) =
          let passed = escapes (network_raises e) refl in cc
      innocent escapes (handler_raises h raised caught) = cc

  receive_valid-cases :
      (message : PeerMessage) (s : PeerSession)
      → validate_payload message ≡ ok tt
      → (Violates message s × IsRefused message s) ⊎ (¬ Violates message s × IsTaken message s)
  receive_valid-cases message s valid =
      elim (settle-cases (handle message s).0 (handle message s).1) [
        | inl (kept, escapes) ↦ inr (
          innocent escapes,
          taken (receive_valid message s valid ∙ kept) (handle-score message s),
        )
        | inr (e, raised, caught, refused) ↦ inl (
          handler_raises valid raised caught,
          IsRefused-of message s (handle message s).1 (receive_valid message s valid ∙ refused)
              (kept_score raised (handle-score message s)),
        )
      ]
    where
      innocent :
          ((e : SessionError) → (handle message s).0 ≡ err e → passes e ≡ true)
          → ¬ Violates message s
      innocent escapes (payload_refused h caught) = cc
      innocent escapes (handler_raises {e} h raised caught) = let passed = escapes e raised in cc

      taken :
          receive message s ≡ handle message s
          → ((handle message s).1.misbehavior_score ≡ s.misbehavior_score)
            ⊎ ((reason : Text) × (message ≡ reject reason)
                × (handle message s
                    ≡ (ok [], record s { misbehavior_score = s.misbehavior_score + 1 })))
          → IsTaken message s
      taken same (inl kept) = uncounted (ap (λ o. o.1.misbehavior_score) same ∙ kept)
      taken same (inr (reason, is_reject, h)) = rejected reason is_reject (same ∙ h)

      kept_score :
          {e : SessionError}
          → (handle message s).0 ≡ err e
          → ((handle message s).1.misbehavior_score ≡ s.misbehavior_score)
            ⊎ ((reason : Text) × (message ≡ reject reason)
                × (handle message s
                    ≡ (ok [], record s { misbehavior_score = s.misbehavior_score + 1 })))
          → (handle message s).1.misbehavior_score ≡ s.misbehavior_score
      kept_score raised (inl kept) = kept
      kept_score raised (inr (reason, is_reject, h)) =
          let clash = sym raised ∙ ap (λ o. o.0) h in absurd (cc)

  -- A message whose payload is refused, or whose handler raises, with an exception that `receive` catches,
  -- is answered with a reject and raises the misbehavior score by one. Any other leaves the score, one with
  -- an exception that passes through `receive` among them, unless it is itself a reject, which raises the
  -- score by one and is not answered.
  pub receive-score :
      (message : PeerMessage) (s : PeerSession)
      → (Violates message s × IsRefused message s) ⊎ (¬ Violates message s × IsTaken message s)
  receive-score message s = elim (Result-cases (validate_payload message)) [
    | inl (u, valid) ↦ receive_valid-cases message s valid
    | inr (e, invalid) ↦ receive_invalid-cases message s invalid
  ]
