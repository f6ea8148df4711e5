-- ===== src/Node/Submit.antt =====
-- `submit_transaction` of blockchaincoin/utxo_node.py with replacement and eviction, and the methods
-- that shrink the pool.
use blockchain_coin.Shared.{
  ℕ, ◌-◌, Bool, true, false, not, ◌&&◌, ◌||◌, Option, none, some, List, [], ◌∷◌, ◌++◌, map, length,
  ℤ, pos, ◌+ℤ◌, ltb_ℤ, eqb_ℤ, if◌then◌else◌, Result, ok, err, raise_if, Dict, lookup, insert,
}
use blockchain_coin.Text.{Text, text_eq, text_lt, text_equality}
use blockchain_coin.Failure.{Error}
use blockchain_coin.Crypto.{Primitives}
use blockchain_coin.Consensus.Types.{OutPoint, Transaction, is_coinbase, outpoint_equality}
use blockchain_coin.Consensus.Encode.{txid}
use blockchain_coin.Consensus.State.{ConsensusState, apply_transaction, mem}
use blockchain_coin.Consensus.Blocks.{apply_all}
use blockchain_coin.Mempool.Policy.{serialized_size, fee_rate, validate}
use blockchain_coin.Mempool.Prune.{
  candidate_of, candidate_after, prune_invalid_mempool, validate_replacement_fee,
}
use blockchain_coin.Node.Types.{
  NodeError, key_missing, coinbase_in_mempool, already_in_mempool, conflicts_with_policy,
  below_eviction_minimum, consensus_raises, policy_raises, Node, Outcome, attempt, lift, persist,
  ◌>>=◌, ◌>>◌,
}

-- `_input_outpoints`
abbrev pub input_outpoints : Transaction → List OutPoint
input_outpoints t = map (λ i. i.previous_output) t.inputs

-- Whether two sets of outpoints meet
unfoldable pub meets : List OutPoint → List OutPoint → Bool
meets [] qs = false
meets (p ∷ ps) qs = mem p qs || meets ps qs

-- The transactions of a pool that spend an outpoint of these
unfoldable pub conflicting : List OutPoint → List Transaction → List Transaction
conflicting inputs [] = []
conflicting inputs (t ∷ ts) =
    let rest = conflicting inputs ts in if meets inputs (input_outpoints t) then t ∷ rest else rest

unfoldable pub mem_text : Text → List Text → Bool
mem_text t [] = false
mem_text t (u ∷ us) = text_eq u t || mem_text t us

-- `_ReplacementContext`
pub record ReplacementContext : Type 0 where
  pub remaining : List Transaction
  pub replaced : List Transaction
  pub replaced_fee : ℤ

-- The tuple of `_transaction_policy_score`
pub record Score : Type 0 where
  pub rate : ℤ
  pub fee : ℤ
  pub id : Text

-- `<` of two scores
unfoldable pub score_lt : Score → Score → Bool
score_lt p q =
    ltb_ℤ p.rate q.rate
    || (eqb_ℤ p.rate q.rate && (ltb_ℤ p.fee q.fee || (eqb_ℤ p.fee q.fee && text_lt p.id q.id)))

-- `best_remaining`, `best_fee` and `best_score` of `_evict_for_policy`
pub record Eviction : Type 0 where
  pub kept : List Transaction
  pub new_fee : ℤ
  pub evicted_score : Score

-- `best_score is None or existing_score < best_score`
abbrev pub is_cheaper : Score → Option Eviction → Bool
is_cheaper score none = true
is_cheaper score (some best) = score_lt score best.evicted_score

module _ ⦃prim : Primitives⦄ where
  unfoldable pub txids : List Transaction → Result Error (List Text)
  txids [] = ok []
  txids (t ∷ ts) = txid t >>= λ id. txids ts >>= λ ids. ok (id ∷ ids)

  -- `any(existing.txid == txid for existing in self.mempool)`
  unfoldable pub has_txid : Text → List Transaction → Result Error Bool
  has_txid id [] = ok false
  has_txid id (t ∷ ts) =
      let rest = has_txid id ts in txid t >>= λ other. if text_eq other id then ok true else rest

  -- `[transaction for transaction in ... if transaction.txid not in ids]`
  unfoldable pub without_txids : List Text → List Transaction → Result Error (List Transaction)
  without_txids ids [] = ok []
  without_txids ids (t ∷ ts) = txid t >>= λ id.
      without_txids ids ts >>= λ rest. ok (if mem_text id ids then rest else t ∷ rest)

  -- `_replacement_context`
  unfoldable pub replacement_context : Node → Transaction → Result NodeError ReplacementContext
  replacement_context n t = elim (conflicting (input_outpoints t) n.mempool) [
    | [] ↦ ok (record { remaining = n.mempool; replaced = []; replaced_fee = pos 0 })
    | r ∷ rs ↦ do
      raise_if (not n.mempool_policy.allow_replacement) conflicts_with_policy
      ids ← lift consensus_raises (txids (r ∷ rs))
      remaining ← lift consensus_raises (without_txids ids n.mempool)
      candidate ← lift consensus_raises (candidate_after n.state remaining)
      fees ← lift consensus_raises (apply_all (pos 0) (r ∷ rs) candidate).0
      ok (record { remaining = remaining; replaced = r ∷ rs; replaced_fee = fees })
  ]

  -- `_transaction_policy_score`
  unfoldable pub policy_score : Transaction → ℤ → Result NodeError Score
  policy_score t fee = do
    size ← lift policy_raises (serialized_size t)
    rate ← lift policy_raises (fee_rate fee (pos size))
    id ← lift consensus_raises (txid t)
    ok (record { rate = rate; fee = fee; id = id })

  -- The loop of `_transaction_fees`
  unfoldable pub fees_from :
      ConsensusState → List Transaction → Dict Text ℤ → Result Error (Dict Text ℤ)
  fees_from candidate [] fees = ok fees
  fees_from candidate (t ∷ ts) fees =
      let (r, candidate') = apply_transaction t candidate in
      do fee ← r; id ← txid t; fees_from candidate' ts (insert id fee fees)

  -- `_transaction_fees`
  unfoldable pub transaction_fees : ConsensusState → List Transaction → Result Error (Dict Text ℤ)
  transaction_fees s ts = candidate_of s >>= λ candidate. fees_from candidate ts []

  -- `existing_fees[existing.txid]`
  unfoldable pub fee_of : Dict Text ℤ → Transaction → Result NodeError ℤ
  fee_of fees t = lift consensus_raises (txid t) >>= λ id. elim (lookup id fees) [
    | none ↦ err key_missing
    | some fee ↦ ok fee
  ]

  -- The candidate of one round: the fee of `t` after the others, or none where something raises.
  unfoldable pub fee_after : ConsensusState → List Transaction → Transaction → Option ℤ
  fee_after s others t = elim (candidate_after s others) [
    | err e ↦ none
    | ok candidate ↦ elim ((apply_transaction t candidate).0) [ err e ↦ none | ok fee ↦ some fee ]
  ]

  -- The loop of `_evict_for_policy`, with what stands before the current transaction.
  unfoldable pub evict_from :
      ConsensusState
      → Transaction
      → Dict Text ℤ
      → List Transaction
      → List Transaction
      → Option Eviction
      → Result NodeError (Option Eviction)
  evict_from s t fees passed [] best = ok best
  evict_from s t fees passed (existing ∷ rest) best = do
    fee ← fee_of fees existing
    score ← policy_score existing fee
    let others : List Transaction = passed ++ rest
    let better : Option Eviction = elim (fee_after s others t) [
      | none ↦ best
      | some new_fee ↦
          if is_cheaper score best
          then some (record { kept = others; new_fee = new_fee; evicted_score = score })
          else best
    ]
    evict_from s t fees (passed ++ existing ∷ []) rest better

  -- `_evict_for_policy` of a full pool: the cheapest transaction gives way, where the new one pays
  -- for it.
  unfoldable pub evict_cheapest :
      Node → Transaction → List Transaction → ℤ → Result NodeError (List Transaction × ℤ)
  evict_cheapest n t remaining fee = do
    new_score ← policy_score t fee
    fees ← lift consensus_raises (transaction_fees n.state remaining)
    best ← evict_from n.state t fees [] remaining none
    elim best [
      | none ↦ ok (remaining, fee)
      | some e ↦ do
        raise_if
            (ltb_ℤ new_score.rate (e.evicted_score.rate +ℤ n.mempool_policy.eviction_fee_rate_bump))
            below_eviction_minimum
        ok (e.kept, e.new_fee)
    ]

  -- `_evict_for_policy`
  unfoldable pub evict_for_policy :
      Node → Transaction → List Transaction → ℤ → Result NodeError (List Transaction × ℤ)
  evict_for_policy n t remaining fee =
      if ltb_ℤ (pos (length remaining)) n.mempool_policy.max_transactions
        || not n.mempool_policy.allow_eviction
      then ok (remaining, fee)
      else evict_cheapest n t remaining fee

  -- What stays in the pool beside the new transaction, and the fee that this pays: by replacement
  -- where it conflicts, and else by eviction.
  unfoldable pub make_room :
      Node → Transaction → ReplacementContext → ℤ → Result NodeError (List Transaction × ℤ)
  make_room n t context fee = elim context.replaced [
    | [] ↦ evict_for_policy n t context.remaining fee
    | r ∷ rs ↦ do
      lift policy_raises (validate_replacement_fee n.mempool_policy fee context.replaced_fee)
      ok (context.remaining, fee)
  ]

  -- What `submit_transaction` computes before it assigns to the pool: the id and the new pool.
  unfoldable pub admit : Node → Transaction → Result NodeError (Text × List Transaction)
  admit n t = do
    id ← lift consensus_raises (txid t)
    raise_if (is_coinbase t) coinbase_in_mempool
    known ← lift consensus_raises (has_txid id n.mempool)
    raise_if known already_in_mempool
    context ← replacement_context n t
    candidate ← lift consensus_raises (candidate_after n.state context.remaining)
    fee ← lift consensus_raises (apply_transaction t candidate).0
    room ← make_room n t context fee
    lift policy_raises (validate n.mempool_policy t room.1 (pos (length room.0)))
    ok (id, room.0 ++ t ∷ [])

  unfoldable pub submit_transaction : Transaction → Node → Outcome Text
  submit_transaction t n =
      attempt (λ e. e) (admit n t) n
        λ (id, pool).
          let n' = record n { mempool = pool } in
          let (r, n'') = persist n' in (r >>= λ _. ok id, n'')

  -- `prune_mempool`: how many transactions it dropped
  unfoldable pub prune_mempool : Node → Outcome ℕ
  prune_mempool n =
      attempt consensus_raises (prune_invalid_mempool n.mempool_policy n.state n.mempool) n λ kept.
        let (r, n') = persist (record n { mempool = kept }) in
        (r >>= λ _. ok (length n.mempool - length kept), n')

  unfoldable pub clear_mempool : Node → Outcome ℕ
  clear_mempool n =
      let (r, n') = persist (record n { mempool = [] }) in (r >>= λ _. ok (length n.mempool), n')
