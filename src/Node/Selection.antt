-- ===== src/Node/Selection.antt =====
-- What `_prioritized_mempool_transactions` of `ConsensusNode` (blockchaincoin/utxo_node.py) selects.
use blockchain_coin.Shared.{
  ℕ, zero, suc, ◌+◌, ◌≤◌, ◌≡◌, refl, ap, ◌∙◌, Option, none, some, List, [], ◌∷◌, length, ℤ, pos,
  ◌+ℤ◌, Result, ok, err, bind-eq-ok, bind-eq-err, ◌≢◌, if◌then◌else◌, Result-cases, Option-cases,
  inl, inr, arith, subst,
}
use mathlib.Core.List.{Perm}
use mathlib.Core.List.Perm
use blockchain_coin.Crypto.{Primitives}
use blockchain_coin.Consensus.Types.{Transaction}
use blockchain_coin.Consensus.State.{ConsensusState, apply_transaction}
use blockchain_coin.Consensus.Blocks.{apply_all}
use blockchain_coin.Consensus.Blocks.Body.{apply_all-ok}
use blockchain_coin.Node.Types.{NodeError, out_of_rounds, consensus_raises, policy_raises, lift}
use blockchain_coin.Node.Mining.{lift-eq-ok}
use blockchain_coin.Failure.{Error}
use blockchain_coin.Consensus.Encode.{txid}
use blockchain_coin.Mempool.Policy.{MempoolPolicyError, serialized_size, fee_rate}
use blockchain_coin.Mempool.Prune.{candidate_of}
use blockchain_coin.Node.Submit.{Score, policy_score}
use blockchain_coin.Node.Assemble.{
  Selection, is_higher, pop_at, best_pending, pop_best, prioritized_from,
  prioritized_mempool_transactions,
}

pop_at-Perm :
    (n : ℕ) (ts : List Transaction) {u : Transaction} {rest : List Transaction}
    → pop_at n ts ≡ some (u, rest)
    → Perm ts (u ∷ rest) × (length ts ≡ suc (length rest))
unfolding pop_at
pop_at-Perm n [] h = absurd (cc)
pop_at-Perm zero (t ∷ ts) {u} {rest} h =
    let first : t ≡ u = cc in
    let others : ts ≡ rest = cc in rw (← first, ← others) (Perm.refl (t ∷ ts), refl)
pop_at-Perm (suc n) (t ∷ ts) {u} {rest} h = elim (Option-cases (pop_at n ts)) [
  | inl e ↦ absurd (cc (rw (e, pop_at) at h))
  | inr ((v, others), e) ↦
      let h' : ◌≡◌ {A = Option (Transaction × List Transaction)} (some (v, t ∷ others))
          (some (u, rest)) =
        rw (e, pop_at) at h in
      let first : v ≡ u = cc in
      let below : t ∷ others ≡ rest = cc in
      let (perm, long) = pop_at-Perm n ts e in
      rw (← first, ← below) (Perm.trans (Perm.cons t perm) (Perm.swap v t others), ap suc long)
]

module _ ⦃prim : Primitives⦄ where
  pop_best-Perm :
      (c : ConsensusState) (pending : List Transaction) {u : Transaction} {rest : List Transaction}
      → pop_best c pending ≡ ok (u, rest)
      → Perm pending (u ∷ rest) × (length pending ≡ suc (length rest))
  unfolding pop_best
  pop_best-Perm c pending {u} {rest} h =
      let (best, _, h₁) = bind-eq-ok (best_pending c 0 pending none) _ h in
      elim (Option-cases best) [
        | inl e ↦ absurd (cc (rw (e) at h₁))
        | inr ((index, score), e) ↦ elim (Option-cases (pop_at index pending)) [
          | inl e₂ ↦ absurd (cc (rw (e, e₂) at h₁))
          | inr (popped, e₂) ↦
              let h₂ : ◌≡◌ {A = Result NodeError (Transaction × List Transaction)} (ok popped)
                  (ok (u, rest)) =
                rw (e, e₂) at h₁ in
              let same : popped ≡ (u, rest) = cc in pop_at-Perm index pending (e₂ ∙ ap some same)
        ]
      ]

  prioritized_from-applies :
      (f : ℕ) (c : ConsensusState) (pending : List Transaction) (fees : ℤ) {chosen : Selection}
      → prioritized_from f c pending fees ≡ ok chosen
      → Perm pending chosen.selected
        × (apply_all fees chosen.selected c ≡ (ok chosen.fees, chosen.candidate))
  unfolding prioritized_from
  prioritized_from-applies f c [] fees {chosen} h =
      let made : Selection = record { selected = []; fees = fees; candidate = c } in
      let same : made ≡ chosen = cc in
      subst (λ x. Perm [] x.selected × (apply_all fees x.selected c ≡ (ok x.fees, x.candidate)))
        same (Perm.refl [], unfold apply_all in refl)
  prioritized_from-applies zero c (t ∷ ts) fees h = absurd (cc)
  prioritized_from-applies (suc f) c (t ∷ ts) fees {chosen} h =
      let ((best, others), e₁, h₁) = bind-eq-ok (pop_best c (t ∷ ts)) _ h in
      let (fee, e₂, h₂) = bind-eq-ok (lift consensus_raises (apply_transaction best c).0) _ h₁ in
      let c' = (apply_transaction best c).1 in
      let (rest, e₃, h₃) = bind-eq-ok (prioritized_from f c' others (fees +ℤ fee)) _ h₂ in
      let applied = lift-eq-ok consensus_raises (apply_transaction best c).0 e₂ in
      let (perm, applies) = prioritized_from-applies f c' others (fees +ℤ fee) e₃ in
      let (popped, _) = pop_best-Perm c (t ∷ ts) e₁ in
      let made : Selection = record rest { selected = best ∷ rest.selected } in
      let same : made ≡ chosen = cc h₃ in
      subst
        (λ x. Perm (t ∷ ts) x.selected × (apply_all fees x.selected c ≡ (ok x.fees, x.candidate)))
        same
        (
          Perm.trans popped (Perm.cons best perm),
          apply_all-ok fees best rest.selected c applied ∙ applies,
        )

  -- What `_prioritized_mempool_transactions` returns is the pool in another order: applied one after
  -- the other to the candidate, the selected transactions pay exactly the returned fees and lead to the
  -- state that the candidate has become.
  pub prioritized_mempool_transactions-applies :
      (mempool : List Transaction) (candidate : ConsensusState) (chosen : Selection)
      → prioritized_mempool_transactions mempool candidate ≡ ok chosen
      → Perm mempool chosen.selected
        × (apply_all (pos 0) chosen.selected candidate ≡ (ok chosen.fees, chosen.candidate))
  unfolding prioritized_mempool_transactions
  prioritized_mempool_transactions-applies mempool candidate chosen h =
      prioritized_from-applies (length mempool) candidate mempool (pos 0) h

  lift-ne : {A : Type 0} (r : Result Error A) → lift consensus_raises r ≢ err out_of_rounds
  lift-ne (ok a) h = cc
  lift-ne (err e) h = cc

  policy_lift-ne :
      {A : Type 0} (r : Result MempoolPolicyError A) → lift policy_raises r ≢ err out_of_rounds
  policy_lift-ne (ok a) h = cc
  policy_lift-ne (err e) h = cc

  policy_score-ne : (t : Transaction) (fee : ℤ) → policy_score t fee ≢ err out_of_rounds
  unfolding policy_score
  policy_score-ne t fee h = elim (bind-eq-err (lift policy_raises (serialized_size t)) _ h) [
    | inl e ↦ policy_lift-ne (serialized_size t) e
    | inr (size, e, k) ↦ elim (bind-eq-err (lift policy_raises (fee_rate fee (pos size))) _ k) [
      | inl e₂ ↦ policy_lift-ne (fee_rate fee (pos size)) e₂
      | inr (rate, e₂, l) ↦ elim (bind-eq-err (lift consensus_raises (txid t)) _ l) [
        | inl e₃ ↦ lift-ne (txid t) e₃
        | inr (id, e₃, m) ↦ cc
      ]
    ]
  ]

  best_pending-ne :
      (c : ConsensusState) (index : ℕ) (pending : List Transaction) (best : Option (ℕ × Score))
      → best_pending c index pending best ≢ err out_of_rounds
  unfolding best_pending
  best_pending-ne c index [] best h = cc
  best_pending-ne c index (t ∷ ts) best h =
      elim (bind-eq-err (lift consensus_raises (candidate_of c)) _ h) [
        | inl e ↦ lift-ne (candidate_of c) e
        | inr (trial, e, k) ↦ elim (Result-cases (apply_transaction t trial).0) [
          | inr (x, e₂) ↦ best_pending-ne c (index + 1) ts best (rw (e₂) at k)
          | inl (fee, e₂) ↦ elim (bind-eq-err (policy_score t fee) _ (rw (e₂) at k)) [
            | inl e₃ ↦ policy_score-ne t fee e₃
            | inr (score, e₃, l) ↦
                best_pending-ne c (index + 1) ts
                  (if is_higher score best then some (index, score) else best) l
          ]
        ]
      ]

  pop_best-ne :
      (c : ConsensusState) (pending : List Transaction) → pop_best c pending ≢ err out_of_rounds
  unfolding pop_best
  pop_best-ne c pending h = elim (bind-eq-err (best_pending c 0 pending none) _ h) [
    | inl e ↦ best_pending-ne c 0 pending none e
    | inr (best, e, k) ↦ elim (Option-cases best) [
      | inl e₂ ↦ cc (rw (e₂) at k)
      | inr ((index, score), e₂) ↦ elim (Option-cases (pop_at index pending)) [
        | inl e₃ ↦ cc (rw (e₂, e₃) at k)
        | inr (popped, e₃) ↦ cc (rw (e₂, e₃) at k)
      ]
    ]
  ]

  prioritized_from-ne :
      (f : ℕ) (c : ConsensusState) (pending : List Transaction) (fees : ℤ)
      → length pending ≤ f
      → prioritized_from f c pending fees ≢ err out_of_rounds
  unfolding prioritized_from
  prioritized_from-ne f c [] fees enough h = cc
  prioritized_from-ne zero c (t ∷ ts) fees enough h = omega arith
  prioritized_from-ne (suc f) c (t ∷ ts) fees enough h =
      elim (bind-eq-err (pop_best c (t ∷ ts)) _ h) [
        | inl e ↦ pop_best-ne c (t ∷ ts) e
        | inr ((best, others), e, k) ↦
            let (_, long) = pop_best-Perm c (t ∷ ts) e in
            let c' = (apply_transaction best c).1 in
            elim (bind-eq-err (lift consensus_raises (apply_transaction best c).0) _ k) [
              | inl e₂ ↦ lift-ne (apply_transaction best c).0 e₂
              | inr (fee, e₂, l) ↦
                  elim (bind-eq-err (prioritized_from f c' others (fees +ℤ fee)) _ l) [
                    | inl e₃ ↦ prioritized_from-ne f c' others (fees +ℤ fee) (omega arith) e₃
                    | inr (rest, e₃, m) ↦ cc
                  ]
            ]
      ]

  -- The loop of `_prioritized_mempool_transactions` ends: it has selected every transaction of the pool,
  -- or raised, before it has gone round more often than there are transactions in the pool.
  pub prioritized_mempool_transactions_ends :
      (mempool : List Transaction) (candidate : ConsensusState)
      → prioritized_mempool_transactions mempool candidate ≢ err out_of_rounds
  unfolding prioritized_mempool_transactions
  prioritized_mempool_transactions_ends mempool candidate =
      prioritized_from-ne (length mempool) candidate mempool (pos 0) (omega arith)
