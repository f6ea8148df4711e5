-- ===== src/Mempool/Prune.antt =====
-- `_candidate_after`, `_prune_invalid_mempool` and `_validate_replacement_fee` of
-- blockchaincoin/utxo_node.py.
use blockchain_coin.Shared.{
  ℕ, ◌+◌, ◌≡◌, refl, sym, ap, ◌∙◌, ℤ, pos, ◌+ℤ◌, ◌≤ℤ◌, ltb_ℤ, List, [], ◌∷◌, length, Result, ok,
  err, bind, raise_if, Result-cases, bind-eq-ok, bind-ok, inl, inr, arith, subst,
}
use blockchain_coin.Failure.{Error}
use blockchain_coin.Crypto.{Primitives}
use blockchain_coin.Consensus.Types.{Transaction, outpoint_equality}
use blockchain_coin.Consensus.Utxo.{copy}
use blockchain_coin.Consensus.Utxo.Laws.{copy_lem}
use blockchain_coin.Consensus.State.{ConsensusState, new_state, apply_transaction}
use blockchain_coin.Consensus.State.Invariant.{IsValid}
use blockchain_coin.Consensus.State.Methods.{Moves, apply_transaction-Sound}
use blockchain_coin.Consensus.Blocks.{apply_all}
use blockchain_coin.Consensus.Blocks.Body.{apply_all-ok, Sound-ok, Sound-err}
use blockchain_coin.Consensus.Blocks.Atomic.{new_state-eq-ok}
use blockchain_coin.Mempool.Policy.{
  MempoolPolicy, MempoolPolicyError, replacement_too_cheap, validate,
}
use blockchain_coin.Mempool.Admission.{validate_iff}

-- `_validate_replacement_fee`
unfoldable pub validate_replacement_fee :
    MempoolPolicy → ℤ → ℤ → Result MempoolPolicyError (Unit {0})
validate_replacement_fee p fee replaced_fee =
    raise_if (ltb_ℤ fee (replaced_fee +ℤ p.replacement_fee_bump)) replacement_too_cheap

-- A state like `s`, on a copy of its set.
unfoldable pub candidate_of : ConsensusState → Result Error ConsensusState
candidate_of s = bind (copy s.utxos) λ copied. new_state copied s.block_subsidy s.max_money

module _ ⦃prim : Primitives⦄ where
  -- `_candidate_after`
  unfoldable pub candidate_after : ConsensusState → List Transaction → Result Error ConsensusState
  candidate_after s ts =
      bind (candidate_of s)
        λ candidate. let (r, s') = apply_all (pos 0) ts candidate in bind r λ fees. ok s'

  -- The loop of `_prune_invalid_mempool`, which has kept `kept` transactions: what it keeps of the
  -- others. The candidate moves on even where the policy then rejects the transaction.
  unfoldable pub prune_from :
      MempoolPolicy → ConsensusState → ℕ → List Transaction → List Transaction
  prune_from p s kept [] = []
  prune_from p s kept (t ∷ ts) =
      let (r, s') = apply_transaction t s in
      elim r [
        | err e ↦ prune_from p s' kept ts
        | ok fee ↦ elim (validate p t fee (pos kept)) [
          | err e ↦ prune_from p s' kept ts
          | ok u ↦ t ∷ prune_from p s' (kept + 1) ts
        ]
      ]

  -- `_prune_invalid_mempool`
  unfoldable pub prune_invalid_mempool :
      MempoolPolicy → ConsensusState → List Transaction → Result Error (List Transaction)
  prune_invalid_mempool p s mempool =
      bind (candidate_of s) λ candidate. ok (prune_from p candidate 0 mempool)

  prune_from-rejected :
      (p : MempoolPolicy) (s : ConsensusState) (kept : ℕ) (t : Transaction) (ts : List Transaction)
      {x : Error}
      → (apply_transaction t s).0 ≡ err x
      → prune_from p s kept (t ∷ ts) ≡ prune_from p (apply_transaction t s).1 kept ts
  unfolding prune_from
  prune_from-rejected p s kept t ts e = rw (e, prune_from) refl

  prune_from-unwanted :
      (p : MempoolPolicy) (s : ConsensusState) (kept : ℕ) (t : Transaction) (ts : List Transaction)
      {fee : ℤ} {x : MempoolPolicyError}
      → (apply_transaction t s).0 ≡ ok fee
      → validate p t fee (pos kept) ≡ err x
      → prune_from p s kept (t ∷ ts) ≡ prune_from p (apply_transaction t s).1 kept ts
  unfolding prune_from
  prune_from-unwanted p s kept t ts e k = rw (e, k, prune_from) refl

  prune_from-kept :
      (p : MempoolPolicy) (s : ConsensusState) (kept : ℕ) (t : Transaction) (ts : List Transaction)
      {fee : ℤ} {u : Unit {0}}
      → (apply_transaction t s).0 ≡ ok fee
      → validate p t fee (pos kept) ≡ ok u
      → prune_from p s kept (t ∷ ts) ≡ t ∷ prune_from p (apply_transaction t s).1 (kept + 1) ts
  unfolding prune_from
  prune_from-kept p s kept t ts e k = rw (e, k, prune_from) refl

  -- What is kept fits into the pool.
  prune_from-length :
      (p : MempoolPolicy) (s : ConsensusState) (kept : ℕ) (ts : List Transaction)
      → pos kept ≤ℤ p.max_transactions
      → pos (kept + length (prune_from p s kept ts)) ≤ℤ p.max_transactions
  prune_from-length p s kept [] h = unfold prune_from in omega arith
  prune_from-length p s kept (t ∷ ts) h = elim (Result-cases (apply_transaction t s).0) [
    | inr (x, e) ↦
        rw (prune_from-rejected p s kept t ts e)
          (prune_from-length p (apply_transaction t s).1 kept ts h)
    | inl (fee, e) ↦ elim (Result-cases (validate p t fee (pos kept))) [
      | inr (x, k) ↦
          rw (prune_from-unwanted p s kept t ts e k)
            (prune_from-length p (apply_transaction t s).1 kept ts h)
      | inl (u, k) ↦
          let room = ((validate_iff p t fee (pos kept)).0 k).room in
          let rest = prune_from-length p (apply_transaction t s).1 (kept + 1) ts (omega arith) in
          rw (prune_from-kept p s kept t ts e k) (omega arith)
    ]
  ]

  -- The policy rejects no transaction that applies in its turn.
  unfoldable pub AreWanted : MempoolPolicy → ConsensusState → ℕ → List Transaction → Type 0
  AreWanted p s kept [] = Unit
  AreWanted p s kept (t ∷ ts) =
      let (r, s') = apply_transaction t s in
      elim r [
        | err e ↦ AreWanted p s' kept ts
        | ok fee ↦ (validate p t fee (pos kept) ≡ ok tt) × AreWanted p s' (kept + 1) ts
      ]

  AreWanted-kept :
      (p : MempoolPolicy) (s : ConsensusState) (kept : ℕ) (t : Transaction) (ts : List Transaction)
      {fee : ℤ}
      → (apply_transaction t s).0 ≡ ok fee
      → AreWanted p s kept (t ∷ ts)
      → (validate p t fee (pos kept) ≡ ok tt) × AreWanted p (apply_transaction t s).1 (kept + 1) ts
  unfolding AreWanted
  AreWanted-kept p s kept t ts e h = rw (e, AreWanted) at h

  AreWanted-rejected :
      (p : MempoolPolicy) (s : ConsensusState) (kept : ℕ) (t : Transaction) (ts : List Transaction)
      {x : Error}
      → (apply_transaction t s).0 ≡ err x
      → AreWanted p s kept (t ∷ ts)
      → AreWanted p (apply_transaction t s).1 kept ts
  unfolding AreWanted
  AreWanted-rejected p s kept t ts e h = rw (e, AreWanted) at h

  -- What is kept applies in order.
  prune_from-applies :
      (p : MempoolPolicy) (s : ConsensusState) (kept : ℕ) (ts : List Transaction) (fees : ℤ)
      → IsValid s
      → AreWanted p s kept ts
      → (r : ℤ) × ((apply_all fees (prune_from p s kept ts) s).0 ≡ ok r)
  prune_from-applies p s kept [] fees v h = (fees, unfold prune_from apply_all in refl)
  prune_from-applies p s kept (t ∷ ts) fees v h = elim (Result-cases (apply_transaction t s).0) [
    | inr (x, e) ↦
        let s₁ = (apply_transaction t s).1 in
        let same : s₁ ≡ s =
          Sound-err s (Moves t s) (apply_transaction t s) (apply_transaction-Sound t s v) e in
        let rest : AreWanted p s kept ts =
          subst (λ s'. AreWanted p s' kept ts) same (AreWanted-rejected p s kept t ts e h) in
        let (r, applies) = prune_from-applies p s kept ts fees v rest in
        (r, rw (prune_from-rejected p s kept t ts e, same) applies)
    | inl (fee, e) ↦
        let s₁ = (apply_transaction t s).1 in
        let (f, _) =
          Sound-ok s (Moves t s) (apply_transaction t s) (apply_transaction-Sound t s v) e in
        let (wanted, rest) = AreWanted-kept p s kept t ts e h in
        let (r, applies) = prune_from-applies p s₁ (kept + 1) ts (fees +ℤ fee) f.valid rest in
        (
          r,
          rw
              (
                prune_from-kept p s kept t ts e wanted,
                apply_all-ok fees t (prune_from p s₁ (kept + 1) ts) s e,
              )
              applies,
        )
  ]

  candidate_of-eq-ok :
      (s : ConsensusState) {c : ConsensusState} → IsValid s → candidate_of s ≡ ok c → c ≡ s
  unfolding candidate_of
  candidate_of-eq-ok s {c} v h =
      let (u, e₁, h₁) = bind-eq-ok (copy s.utxos) _ h in
      let (made, _, _) = new_state-eq-ok u s.block_subsidy s.max_money h₁ in
      let copied : u ≡ s.utxos = cc (copy_lem s.utxos v.distinct) in
      made ∙ ap (λ x. record s { utxos = x }) copied

  -- From a valid state, and where the policy rejects no transaction that applies in its turn, the
  -- transactions that `_prune_invalid_mempool` keeps are no more than the pool may hold, and they
  -- apply one after the other, so that `_candidate_after` of them returns.
  pub prune_invalid_mempool-applies :
      (p : MempoolPolicy) (s : ConsensusState) (mempool kept : List Transaction)
      → IsValid s
      → pos 0 ≤ℤ p.max_transactions
      → AreWanted p s 0 mempool
      → prune_invalid_mempool p s mempool ≡ ok kept
      → (pos (length kept) ≤ℤ p.max_transactions)
        × ((s' : ConsensusState) × (candidate_after s kept ≡ ok s'))
  unfolding prune_invalid_mempool candidate_after
  prune_invalid_mempool-applies p s mempool kept v room wanted h =
      let (c, e, h₁) = bind-eq-ok (candidate_of s) _ h in
      let same : c ≡ s = candidate_of-eq-ok s v e in
      let pruned : prune_from p s 0 mempool ≡ kept =
        ap (λ x. prune_from p x 0 mempool) (sym same) ∙ cc h₁ in
      let (r, applies) = prune_from-applies p s 0 mempool (pos 0) v wanted in
      let applies' : (apply_all (pos 0) kept s).0 ≡ ok r = rw pruned at applies in
      let bounded = prune_from-length p s 0 mempool room in
      let fits : pos (length (prune_from p s 0 mempool)) ≤ℤ p.max_transactions =
        omega (arith, bounded) in
      (
        rw pruned at fits,
        ((apply_all (pos 0) kept s).1, bind-ok _ e (rw (same, applies', bind) refl)),
      )
