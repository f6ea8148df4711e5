-- ===== src/Node/Types.antt =====
-- The state of `ConsensusNode` (blockchaincoin/utxo_node.py) and what its methods raise.
use blockchain_coin.Shared.{Option, none, some, List, ℤ, negsuc, Result, ok, err, bind}
use blockchain_coin.Text.{Text}
use blockchain_coin.Failure.{Error}
use blockchain_coin.Crypto.{Primitives}
use blockchain_coin.Consensus.Types.{Transaction, zero_hash}
use blockchain_coin.Consensus.Encode.{block_hash}
use blockchain_coin.Consensus.State.{ConsensusState}
use blockchain_coin.ForkStore.{ForkStore, StorageError}
use blockchain_coin.ForkChoice.{ForkChoiceError, best_tip}
use blockchain_coin.Mempool.Policy.{MempoolPolicy, MempoolPolicyError}
use blockchain_coin.Storage.Invalid.{InvalidBlocks}
use blockchain_coin.Storage.Pool.{MempoolStore, PoolError, replace_all}
use blockchain_coin.Storage.Index.{UtxoIndex, IndexError}
use blockchain_coin.Storage.Parameters.{ParameterError}

-- ConsensusNodeError and MempoolPolicyError by the messages of the node's own methods, and what the
-- parts below it raise.
pub data NodeError : Type 0 where
  coinbase_in_mempool already_in_mempool conflicts_with_policy below_eviction_minimum : NodeError
  invalid_miner_address cannot_be_mined out_of_rounds genesis_exists parent_unknown : NodeError
  amount_not_positive fee_negative recipient_invalid insufficient_funds address_invalid : NodeError
  difficulty_negative no_allocations genesis_address_invalid allocation_not_positive : NodeError
  allocations_exceed_supply one_selector_wanted height_negative unknown_height : NodeError
  key_missing unknown_hash unknown_transaction no_active_tip chain_exists : NodeError
  header_invalid : Error → NodeError
  cached_as_invalid : NodeError → NodeError
  consensus_raises : Error → NodeError
  policy_raises : MempoolPolicyError → NodeError
  storage_raises : StorageError → NodeError
  fork_raises : ForkChoiceError → NodeError
  pool_raises : PoolError → NodeError
  index_raises : IndexError → NodeError
  parameters_raise : ParameterError → NodeError
  -- `open` turns everything into this.
  chain_failed_validation : NodeError → NodeError

pub record ReorgEvent : Type 0 where
  pub old_tip : Text
  pub new_tip : Text
  pub old_height : ℤ
  pub new_height : ℤ

-- The node; the subsidy and the maximum supply of its `fork_choice` stand beside its state's. The
-- stores that the constructor takes as None are options.
pub record Node : Type 0 where
  pub store : ForkStore
  pub state : ConsensusState
  pub difficulty : ℤ
  pub mempool : List Transaction
  pub fork_subsidy : ℤ
  pub fork_limit : ℤ
  pub mempool_store : Option MempoolStore
  pub utxo_index : Option UtxoIndex
  pub invalid_blocks : Option (InvalidBlocks NodeError)
  pub mempool_policy : MempoolPolicy
  pub last_reorg : Option ReorgEvent

-- What a method has returned or raised, and the node that it leaves.
abbrev pub Outcome : Type 0 → Type 0
Outcome A = Result NodeError A × Node

-- One part of a method: where it raises, the method ends with the node as it then is.
abbrev pub attempt :
    {E A B : Type 0} → (E → NodeError) → Result E A → Node → (A → Outcome B) → Outcome B
attempt raises (ok a) n k = k a
attempt raises (err e) n k = (err (raises e), n)

abbrev pub lift : {E A : Type 0} → (E → NodeError) → Result E A → Result NodeError A
lift raises (ok a) = ok a
lift raises (err e) = err (raises e)

infixl 5 ◌>>=◌ ◌>>◌
abbrev pub ◌>>=◌ {ℓ} : {E A : Type 0} {B : Type ℓ} → Result E A → (A → Result E B) → Result E B
◌>>=◌ = bind

abbrev pub ◌>>◌ {ℓ} : {E A : Type 0} {B : Type ℓ} → Result E A → Result E B → Result E B
m >> k = bind m λ _. k

-- `height`
unfoldable pub node_height : ForkStore → ℤ
node_height store = elim (best_tip store) [ none ↦ negsuc 0 | some tip ↦ tip.block.height ]

module _ ⦃prim : Primitives⦄ where
  -- `tip_hash`
  unfoldable pub tip_hash : ForkStore → Result Error Text
  tip_hash store = elim (best_tip store) [ none ↦ ok zero_hash | some tip ↦ block_hash tip.block ]

  -- `self.mempool_store.replace_all(self.mempool)`, where there is a store
  unfoldable pub persist : Node → Outcome (Unit {0})
  persist n = elim n.mempool_store [
    | none ↦ (ok tt, n)
    | some table ↦
        attempt pool_raises (replace_all n.mempool) n
          λ table'. (ok tt, record n { mempool_store = some table' })
  ]
