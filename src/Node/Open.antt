-- ===== src/Node/Open.antt =====
-- How a `ConsensusNode` (blockchaincoin/utxo_node.py) comes to be: `create` and `open` on the files of
-- a node, the constructor, and the pool that it loads.
use blockchain_coin.Shared.{
  ℕ, Bool, true, false, ◌&&◌, none, some, List, [], ◌∷◌, ℤ, pos, eqb_ℤ, ltb_ℤ, eqb, length,
  if◌then◌else◌, Result, ok, err, ◌==◌,
}
use blockchain_coin.Text.{Text, text_eq}
use blockchain_coin.Crypto.{Primitives}
use blockchain_coin.Consensus.Types.{Transaction, zero_hash, outpoint_equality}
use blockchain_coin.Consensus.Encode.{block_hash}
use blockchain_coin.Consensus.Utxo.{Utxo, empty, entries}
use blockchain_coin.Consensus.State.{ConsensusState, new_state}
use blockchain_coin.Consensus.Blocks.{apply_block}
use blockchain_coin.ForkStore.{ForkStore, put_block}
use blockchain_coin.ForkChoice.{
  ActiveChain, tip_of, best_tip, active_chain, validate_all_known_branches,
}
use blockchain_coin.Mempool.Policy.{MempoolPolicy}
use blockchain_coin.Mempool.Prune.{prune_invalid_mempool}
use blockchain_coin.Storage.Invalid.{InvalidBlocks}
use blockchain_coin.Storage.Pool.{MempoolStore, codec_raises, transactions, pool_count, replace_all}
use blockchain_coin.Storage.Index.{UtxoIndex, save_snapshot, load_snapshot}
use blockchain_coin.Storage.Parameters.{
  ChainParameters, Metadata, Reader, save_chain_parameters, require_chain_parameters,
}
use blockchain_coin.Node.Types.{
  NodeError, difficulty_negative, chain_exists, consensus_raises, storage_raises, fork_raises,
  pool_raises, index_raises, parameters_raise, chain_failed_validation, Node, lift, ◌>>=◌, ◌>>◌,
}
use blockchain_coin.Node.Assemble.{build_genesis_block}

-- The databases of a node: the blocks with their metadata, and the caches.
pub record Databases : Type 0 where
  pub blocks : ForkStore
  pub metadata : Metadata
  pub pool : MempoolStore
  pub index : UtxoIndex
  pub rejected : InvalidBlocks NodeError

-- What the constructor returned or raised, and the databases after it.
abbrev pub Opened : Type 0
Opened = Result NodeError Node × Databases

-- `==` of two outputs and of two tuples of entries
unfoldable pub same_entries : List Utxo → List Utxo → Bool
same_entries [] [] = true
same_entries [] (u ∷ us) = false
same_entries (e ∷ es) [] = false
same_entries (e ∷ es) (u ∷ us) =
    (e.outpoint == u.outpoint)
    && (eqb_ℤ e.output.amount u.output.amount
        && (text_eq e.output.address u.output.address && same_entries es us))

module _ ⦃prim : Primitives⦄ where
  -- `_load_mempool`: the transactions that are kept, which are written back where some were dropped
  unfoldable pub load_mempool :
      MempoolPolicy
      → ConsensusState
      → MempoolStore
      → Result NodeError (List Transaction × MempoolStore)
  load_mempool policy s table = do
    loaded ← lift (λ e. pool_raises (codec_raises e)) (transactions table)
    kept ← lift consensus_raises (prune_invalid_mempool policy s loaded)
    if eqb (length kept) (pool_count table)
        then ok (kept, table)
        else (lift pool_raises (replace_all kept) >>= λ written. ok (kept, written))

  -- `ConsensusNode(...)` with the stores, and without a pool
  unfoldable pub new_node : MempoolPolicy → ℤ → ℤ → ℤ → ConsensusState → Databases → Opened
  new_node policy difficulty subsidy limit s d =
      if ltb_ℤ difficulty (pos 0)
      then (err difficulty_negative, d)
      else elim (load_mempool policy s d.pool) [
        | err e ↦ (err e, d)
        | ok (kept, table) ↦
            let n : Node = record {
              store = d.blocks;
              state = s;
              difficulty = difficulty;
              mempool = kept;
              fork_subsidy = subsidy;
              fork_limit = limit;
              mempool_store = some table;
              utxo_index = some d.index;
              invalid_blocks = some d.rejected;
              mempool_policy = policy;
              last_reorg = none;
            } in
            (ok n, record d { pool = table })
      ]

  -- What `create` writes after the parameters, but for the index: the first block and the empty pool,
  -- with the block's hash and its state
  unfoldable pub write_genesis :
      ℕ
      → List (Text × ℤ)
      → ℤ
      → ℤ
      → ℤ
      → ℕ
      → Databases
      → Result NodeError (Text × (ConsensusState × Databases))
  write_genesis rounds allocations difficulty subsidy limit timestamp d = do
    s ← lift consensus_raises (new_state empty subsidy limit)
    genesis ← build_genesis_block rounds allocations difficulty timestamp
    let (r, s') = apply_block genesis (pos 0) zero_hash s
    lift consensus_raises r
    put ← lift storage_raises (put_block genesis d.blocks)
    emptied ← lift pool_raises (replace_all [])
    hash ← lift consensus_raises (block_hash genesis)
    ok (hash, (s', record d { blocks = put.1; pool = emptied }))

  -- The part of `create` after what it writes
  unfoldable pub create_activated : MempoolPolicy → ℤ → ℤ → ℤ → Databases → Opened
  create_activated policy difficulty subsidy limit d = elim (active_chain subsidy limit d.blocks) [
    | err e ↦ (err (fork_raises e), d)
    | ok active ↦ new_node policy difficulty subsidy limit active.state d
  ]

  -- `create`, where the databases hold no block: a failure leaves what was written before it.
  unfoldable pub create_on :
      MempoolPolicy → ℕ → List (Text × ℤ) → ℤ → ℤ → ℤ → ℕ → Databases → Opened
  create_on policy rounds allocations difficulty subsidy limit timestamp d =
      elim (write_genesis rounds allocations difficulty subsidy limit timestamp d) [
        | err e ↦ (err e, d)
        | ok (hash, (s, written)) ↦ elim (save_snapshot hash s.utxos written.index) [
          | err e ↦ (err (index_raises e), written)
          | ok index ↦
              create_activated policy difficulty subsidy limit (record written { index = index })
        ]
      ]

  unfoldable pub create : MempoolPolicy → ℕ → List (Text × ℤ) → ℤ → ℤ → ℤ → ℕ → Databases → Opened
  create policy rounds allocations difficulty subsidy limit timestamp d =
      let parameters : ChainParameters = record {
        difficulty = difficulty;
        block_subsidy = subsidy;
        max_money = limit;
      } in
      elim (best_tip d.blocks) [
        | some tip ↦ (err chain_exists, d)
        | none ↦ elim (save_chain_parameters parameters d.metadata) [
          | err e ↦ (err (parameters_raise e), d)
          | ok rows ↦
              create_on policy rounds allocations difficulty subsidy limit timestamp
                (record d { metadata = rows })
        ]
      ]

  -- The state of `open` at a tip: from the index, where its entries are those of the replay, and else
  -- from the replay, which is then written to the index.
  unfoldable pub indexed_state :
      Text → ℤ → ℤ → ActiveChain → UtxoIndex → Result NodeError (ConsensusState × UtxoIndex)
  indexed_state hash subsidy limit active index =
      let replayed : Result NodeError (ConsensusState × UtxoIndex) =
        lift index_raises (save_snapshot hash active.state.utxos index) >>= λ written.
        ok (active.state, written) in
      lift consensus_raises (load_snapshot hash index) >>= λ indexed. elim indexed [
        | none ↦ replayed
        | some utxos ↦
            if same_entries (entries utxos) (entries active.state.utxos)
            then (lift consensus_raises (new_state utxos subsidy limit) >>= λ s. ok (s, index))
            else replayed
      ]

  unfoldable pub opened_state :
      ℤ → ℤ → ActiveChain → UtxoIndex → Result NodeError (ConsensusState × UtxoIndex)
  opened_state subsidy limit active index = elim (tip_of active.blocks) [
    | none ↦ ok (active.state, index)
    | some tip ↦ lift consensus_raises (block_hash tip) >>= λ hash.
        indexed_state hash subsidy limit active index
  ]

  -- The part of `open` that replays what is stored
  unfoldable pub validate_stored : ℤ → ℤ → Databases → Result NodeError (ConsensusState × UtxoIndex)
  validate_stored subsidy limit d = do
    active ← lift fork_raises (active_chain subsidy limit d.blocks)
    lift fork_raises (validate_all_known_branches subsidy limit d.blocks)
    opened_state subsidy limit active d.index

  -- `open` after the parameters
  unfoldable pub open_validated : MempoolPolicy → ℤ → ℤ → ℤ → Databases → Opened
  open_validated policy difficulty subsidy limit d = elim (validate_stored subsidy limit d) [
    | err e ↦ (err (chain_failed_validation e), d)
    | ok (s, index) ↦ new_node policy difficulty subsidy limit s (record d { index = index })
  ]

  -- `best_tip() is not None`
  abbrev pub has_tip : ForkStore → Bool
  has_tip store = elim (best_tip store) [ none ↦ false | some tip ↦ true ]

  -- `open`
  unfoldable pub open_node : Reader → MempoolPolicy → ℤ → ℤ → ℤ → Databases → Opened
  open_node reader policy difficulty subsidy limit d =
      let parameters : ChainParameters = record {
        difficulty = difficulty;
        block_subsidy = subsidy;
        max_money = limit;
      } in
      elim (require_chain_parameters reader (has_tip d.blocks) parameters d.metadata) [
        | err e ↦ (err (chain_failed_validation (parameters_raise e)), d)
        | ok rows ↦ open_validated policy difficulty subsidy limit (record d { metadata = rows })
      ]
