-- ===== src/Node/Assemble.antt =====
-- What `ConsensusNode` (blockchaincoin/utxo_node.py) builds: spends of a wallet, candidate blocks from
-- the pool, mined blocks and the first block. The clock is an argument.
use blockchain_coin.Shared.{
  ℕ, zero, suc, ◌+◌, Bool, true, not, Option, none, some, List, [], ◌∷◌, map, length, is_empty, ℤ,
  pos, negsuc, ◌+ℤ◌, ◌-ℤ◌, leb_ℤ, ltb_ℤ, eqb_ℤ, if◌then◌else◌, Result, ok, err, bind, raise_if,
}
use blockchain_coin.Text.{Text, starts_with}
use blockchain_coin.Failure.{Error}
use blockchain_coin.Crypto.{Primitives, is_valid_address}
use blockchain_coin.Consensus.Types.{
  OutPoint, TxInput, TxOutput, Transaction, Block, zero_hash, outpoint_equality,
}
use blockchain_coin.Consensus.Encode.{block_hash}
use blockchain_coin.Consensus.Merkle.{calculate_transaction_root}
use blockchain_coin.Consensus.Utxo.{Utxo, entries_for_address}
use blockchain_coin.Consensus.State.{
  ConsensusState, default_max_money, apply_transaction, create_coinbase, sign_input,
}
use blockchain_coin.Consensus.Blocks.{work_target}
use blockchain_coin.Mempool.Prune.{candidate_of}
use blockchain_coin.Node.Types.{
  NodeError, invalid_miner_address, cannot_be_mined, out_of_rounds, amount_not_positive,
  fee_negative, recipient_invalid, insufficient_funds, difficulty_negative, no_allocations,
  genesis_address_invalid, allocation_not_positive, allocations_exceed_supply, consensus_raises,
  Node, lift, node_height, tip_hash, ◌>>=◌, ◌>>◌,
}
use blockchain_coin.Node.Submit.{Score, score_lt, policy_score}

-- What is used of a `Wallet`: its address, the dictionary of its public key, and `sign`.
pub record Wallet : Type 0 where
  pub address : Text
  pub public_key : List (Text × Text)
  pub sign : Text → Text

-- The result of `_prioritized_mempool_transactions`, with the candidate that it has moved.
pub record Selection : Type 0 where
  pub selected : List Transaction
  pub fees : ℤ
  pub candidate : ConsensusState

-- `best_score is None or score > best_score`
abbrev pub is_higher : Score → Option (ℕ × Score) → Bool
is_higher score none = true
is_higher score (some best) = score_lt best.1 score

-- `pending.pop(index)`: the transaction and the others
unfoldable pub pop_at : ℕ → List Transaction → Option (Transaction × List Transaction)
pop_at n [] = none
pop_at zero (t ∷ ts) = some (t, ts)
pop_at (suc n) (t ∷ ts) = elim (pop_at n ts) [ none ↦ none | some (u, rest) ↦ some (u, t ∷ rest) ]

-- The loop of `create_transaction` over the wallet's outputs: what it selects, and their amount
unfoldable pub select_outputs : ℤ → ℤ → List Utxo → List Utxo × ℤ
select_outputs needed sum_so_far [] = ([], sum_so_far)
select_outputs needed sum_so_far (u ∷ us) =
    let reached = sum_so_far +ℤ u.output.amount in
    let (others, in_all) = select_outputs needed reached us in
    if leb_ℤ needed reached then (u ∷ [], reached) else (u ∷ others, in_all)

-- `TxInput(utxo.outpoint)`
abbrev pub input_of : Utxo → TxInput
input_of u = record { previous_output = u.outpoint; signature = none; public_key = none }

-- The payment, and the change where some is left
unfoldable pub payment_outputs : ℤ → Text → ℤ → Text → List TxOutput
payment_outputs amount recipient change own =
    let payment : TxOutput = record { amount = amount; address = recipient } in
    let rest : TxOutput = record { amount = change; address = own } in
    if eqb_ℤ change (pos 0) then payment ∷ [] else payment ∷ rest ∷ []

-- `spendable_outputs`
abbrev pub spendable_outputs : Text → Node → List Utxo
spendable_outputs address n = entries_for_address address n.state.utxos

-- The transaction before it is signed
unfoldable pub unsigned_spend : Wallet → Text → ℤ → ℤ → List Utxo → Result NodeError Transaction
unsigned_spend wallet recipient amount fee spendable =
    let needed = amount +ℤ fee in
    let (selected, in_all) = select_outputs needed (pos 0) spendable in
    if ltb_ℤ in_all needed
    then err insufficient_funds
    else ok (record {
      inputs = map input_of selected;
      outputs = payment_outputs amount recipient (in_all -ℤ needed) wallet.address;
      version = pos 1;
    })

-- `for index in range(len(inputs))`: `count` signatures from number `index` on
unfoldable pub sign_from : Wallet → ℕ → ℕ → Transaction → Result Error Transaction
sign_from wallet zero index t = ok t
sign_from wallet (suc count) index t =
    bind (sign_input t (pos index) wallet.sign wallet.public_key)
      (sign_from wallet count (index + 1))

unfoldable pub create_transaction : Wallet → Text → ℤ → ℤ → Node → Result NodeError Transaction
create_transaction wallet recipient amount fee n = do
  raise_if (leb_ℤ amount (pos 0)) amount_not_positive
  raise_if (ltb_ℤ fee (pos 0)) fee_negative
  raise_if (not (is_valid_address recipient)) recipient_invalid
  t ← unsigned_spend wallet recipient amount fee (spendable_outputs wallet.address n)
  lift consensus_raises (sign_from wallet (length t.inputs) 0 t)

-- The loop of `_build_genesis_block`: the outputs, and the total from `in_all` on
unfoldable pub genesis_outputs : ℤ → List (Text × ℤ) → Result NodeError (List TxOutput × ℤ)
genesis_outputs in_all [] = ok ([], in_all)
genesis_outputs in_all ((address, amount) ∷ allocations) = do
  raise_if (not (is_valid_address address)) genesis_address_invalid
  raise_if (leb_ℤ amount (pos 0)) allocation_not_positive
  rest ← genesis_outputs (in_all +ℤ amount) allocations
  ok (record { amount = amount; address = address } ∷ rest.0, rest.1)

-- The coinbase of the first block
unfoldable pub genesis_coinbase : List (Text × ℤ) → ℤ → Result NodeError Transaction
genesis_coinbase allocations difficulty = do
  raise_if (ltb_ℤ difficulty (pos 0)) difficulty_negative
  raise_if (is_empty allocations) no_allocations
  outputs ← genesis_outputs (pos 0) allocations
  raise_if (ltb_ℤ default_max_money outputs.1) allocations_exceed_supply
  let point : OutPoint = record { txid = zero_hash; index = negsuc 0 }
  let source : TxInput = record { previous_output = point; signature = none; public_key = none }
  ok (record { inputs = source ∷ []; outputs = outputs.0; version = pos 1 })

module _ ⦃prim : Primitives⦄ where
  -- `ConsensusBlock(...)` without a root, which `__post_init__` then computes
  unfoldable pub new_block : ℤ → Text → List Transaction → ℤ → ℕ → ℤ → ℤ → Result Error Block
  new_block height previous_hash transactions difficulty timestamp nonce version =
      bind (calculate_transaction_root transactions) λ root. ok (record {
        height = height;
        previous_hash = previous_hash;
        transactions = transactions;
        difficulty = difficulty;
        timestamp = timestamp;
        nonce = nonce;
        transaction_root = root;
        version = version;
      })

  -- The inner loop of `_prioritized_mempool_transactions`, from number `index` on: the place and the
  -- score of the best transaction that applies.
  unfoldable pub best_pending :
      ConsensusState
      → ℕ
      → List Transaction
      → Option (ℕ × Score)
      → Result NodeError (Option (ℕ × Score))
  best_pending c index [] best = ok best
  best_pending c index (t ∷ ts) best = lift consensus_raises (candidate_of c) >>= λ trial.
      elim ((apply_transaction t trial).0) [
        | err e ↦ best_pending c (index + 1) ts best
        | ok fee ↦ policy_score t fee >>= λ score.
            best_pending c (index + 1) ts
              (if is_higher score best then some (index, score) else best)
      ]

  -- The transaction that one round takes, and the others
  unfoldable pub pop_best :
      ConsensusState → List Transaction → Result NodeError (Transaction × List Transaction)
  pop_best c pending = best_pending c 0 pending none >>= λ best. elim best [
    | none ↦ err cannot_be_mined
    | some (index, score) ↦ elim (pop_at index pending) [
      | none ↦ err cannot_be_mined
      | some popped ↦ ok popped
    ]
  ]

  -- The outer loop, with fuel for the length of what is pending
  unfoldable pub prioritized_from :
      ℕ → ConsensusState → List Transaction → ℤ → Result NodeError Selection
  prioritized_from f c [] fees = ok (record { selected = []; fees = fees; candidate = c })
  prioritized_from zero c (t ∷ ts) fees = err out_of_rounds
  prioritized_from (suc f) c (t ∷ ts) fees = pop_best c (t ∷ ts) >>= λ (best, others).
      let (r, c') = apply_transaction best c in
      lift consensus_raises r >>= λ fee. prioritized_from f c' others (fees +ℤ fee) >>= λ rest.
      ok (record rest { selected = best ∷ rest.selected })

  -- `_prioritized_mempool_transactions`
  unfoldable pub prioritized_mempool_transactions :
      List Transaction → ConsensusState → Result NodeError Selection
  prioritized_mempool_transactions mempool candidate =
      prioritized_from (length mempool) candidate mempool (pos 0)

  unfoldable pub build_candidate_block : Text → ℕ → Node → Result NodeError Block
  build_candidate_block miner_address timestamp n = do
    raise_if (not (is_valid_address miner_address)) invalid_miner_address
    candidate ← lift consensus_raises (candidate_of n.state)
    chosen ← prioritized_mempool_transactions n.mempool candidate
    let next_height : ℤ = node_height n.store +ℤ pos 1
    coinbase ←
        lift consensus_raises
          (create_coinbase chosen.candidate miner_address chosen.fees next_height)
    previous ← lift consensus_raises (tip_hash n.store)
    lift consensus_raises (
        new_block next_height previous (coinbase ∷ chosen.selected) n.difficulty timestamp (pos 0)
          (pos 1))

  -- The block of the next round
  unfoldable pub next_round : Block → Result Error Block
  next_round b =
      new_block b.height b.previous_hash b.transactions b.difficulty b.timestamp (b.nonce +ℤ pos 1)
        b.version

  -- `_mine`, on fuel: the rounds that are tried.
  unfoldable pub mine : ℕ → Block → Result NodeError Block
  mine zero b = err out_of_rounds
  mine (suc f) b = lift consensus_raises (block_hash b) >>= λ hash.
      let rest = lift consensus_raises (next_round b) >>= mine f in
      if starts_with hash (work_target b.difficulty) then ok b else rest

  -- `_build_genesis_block`
  unfoldable pub build_genesis_block : ℕ → List (Text × ℤ) → ℤ → ℕ → Result NodeError Block
  build_genesis_block rounds allocations difficulty timestamp = do
    coinbase ← genesis_coinbase allocations difficulty
    b ←
        lift consensus_raises
          (new_block (pos 0) zero_hash (coinbase ∷ []) difficulty timestamp (pos 0) (pos 1))
    mine rounds b
