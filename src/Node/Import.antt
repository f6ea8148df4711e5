-- ===== src/Node/Import.antt =====
-- `import_block` and `mine_block` of `ConsensusNode` (blockchaincoin/utxo_node.py): a block is
-- validated on its parent's branch, stored and, where its branch wins, activated.
use blockchain_coin.Shared.{
  ℕ, Bool, ◌&&◌, Option, none, some, pos, ◌+ℤ◌, eqb_ℤ, if◌then◌else◌, Result, ok, err,
}
use blockchain_coin.Text.{Text, text_eq}
use blockchain_coin.Failure.{Error}
use blockchain_coin.Crypto.{Primitives}
use blockchain_coin.Consensus.Types.{Block, zero_hash}
use blockchain_coin.Consensus.Encode.{block_hash}
use blockchain_coin.Consensus.Utxo.{empty}
use blockchain_coin.Consensus.State.{new_state}
use blockchain_coin.Consensus.Blocks.{apply_block}
use blockchain_coin.ForkStore.{StoredBlock, ForkStore, put_block}
use blockchain_coin.ForkChoice.{
  ForkChoiceError, branch_disconnected, branch_invalid, not_stored, state_refused, unreadable,
  ActiveChain, tip_of, best_tip, active_chain, branch_to_tip,
}
use blockchain_coin.Storage.Invalid.{mark_invalid, reason_of}
use blockchain_coin.Storage.Index.{UtxoIndex, save_tip_snapshot, save_snapshot, save_tip_spends}
use blockchain_coin.Node.Types.{
  NodeError, genesis_exists, parent_unknown, no_active_tip, header_invalid, cached_as_invalid,
  consensus_raises, storage_raises, fork_raises, index_raises, ReorgEvent, Node, Outcome, attempt,
  lift, ◌>>=◌, ◌>>◌,
}
use blockchain_coin.Node.Submit.{txids, without_txids, prune_mempool}
use blockchain_coin.Node.Assemble.{build_candidate_block, mine}

-- `invalid_blocks.is_invalid(block_hash)` with the reason, where there is a cache
unfoldable pub cached_reason : Text → Node → Option NodeError
cached_reason hash n = elim n.invalid_blocks [ none ↦ none | some cache ↦ reason_of hash cache ]

-- `invalid_blocks.mark_invalid(block_hash, ...)`, where there is a cache
unfoldable pub reject : Text → NodeError → Node → Node
reject hash reason n = elim n.invalid_blocks [
  | none ↦ n
  | some cache ↦ record n { invalid_blocks = some (mark_invalid hash reason cache) }
]

-- What `except StorageError` makes of the failures of a parent's branch
unfoldable pub parent_raises : ForkChoiceError → NodeError
parent_raises (not_stored e) = parent_unknown
parent_raises (branch_disconnected e) = fork_raises (branch_disconnected e)
parent_raises (branch_invalid e) = fork_raises (branch_invalid e)
parent_raises (state_refused e) = fork_raises (state_refused e)
parent_raises (unreadable e) = fork_raises (unreadable e)

module _ ⦃prim : Primitives⦄ where
  -- A first block, on an empty store
  unfoldable pub validate_first : Block → Node → Result NodeError (Unit {0})
  validate_first b n = elim (best_tip n.store) [
    | some tip ↦ err genesis_exists
    | none ↦ do
      s ← lift consensus_raises (new_state empty n.state.block_subsidy n.state.max_money)
      lift consensus_raises (apply_block b (pos 0) zero_hash s).0
      ok tt
  ]

  -- A later block, on its parent's branch
  unfoldable pub validate_later : Block → Node → Result NodeError (Unit {0})
  validate_later b n = do
    parent ← lift parent_raises (branch_to_tip n.fork_subsidy n.fork_limit b.previous_hash n.store)
    lift consensus_raises (apply_block b b.height b.previous_hash parent.state).0
    ok tt

  -- `_validate_import_candidate`
  unfoldable pub validate_import_candidate : Block → Node → Result NodeError (Unit {0})
  validate_import_candidate b n =
      if eqb_ℤ b.height (pos 0) then validate_first b n else validate_later b n

  -- The part of `import_block` whose failures are cached
  unfoldable pub validate_and_put : Block → Node → Result NodeError (StoredBlock × ForkStore)
  validate_and_put b n = validate_import_candidate b n >> lift storage_raises (put_block b n.store)

  -- `new_tip.previous_hash == old_tip.hash and new_tip.height == old_tip.height + 1`
  abbrev pub extends : Block → Block → Text → Bool
  extends new_tip old_tip old_hash =
      text_eq new_tip.previous_hash old_hash && eqb_ℤ new_tip.height (old_tip.height +ℤ pos 1)

  -- The event of a change from one tip to another
  unfoldable pub reorg_between : Block → Block → Result Error (Option ReorgEvent)
  reorg_between old_tip new_tip = do
    old_hash ← block_hash old_tip
    new_hash ← block_hash new_tip
    if text_eq old_hash new_hash
        then ok none
        else (if extends new_tip old_tip old_hash
            then ok none
            else ok (
                some (record {
                  old_tip = old_hash;
                  new_tip = new_hash;
                  old_height = old_tip.height;
                  new_height = new_tip.height;
                })))

  -- `_detect_reorg`
  unfoldable pub detect_reorg : Option StoredBlock → Option Block → Result Error (Option ReorgEvent)
  detect_reorg none new_tip = ok none
  detect_reorg (some old) none = ok none
  detect_reorg (some old) (some new_tip) = reorg_between old.block new_tip

  -- One write to the index, which stays where a later one fails
  abbrev pub write_index : UtxoIndex → Node → Node
  write_index index n = record n { utxo_index = some index }

  -- The rows of the imported block's branch
  unfoldable pub index_imported : StoredBlock → UtxoIndex → Node → Outcome UtxoIndex
  index_imported stored index n = attempt consensus_raises (block_hash stored.block) n λ hash.
      attempt fork_raises (branch_to_tip n.fork_subsidy n.fork_limit hash n.store) n λ imported.
        attempt index_raises (save_tip_snapshot hash imported.state.utxos index) n λ snapshot.
          let n₁ = write_index snapshot n in
          attempt index_raises (save_tip_spends hash imported.blocks snapshot) n₁
            λ spent. (ok spent, write_index spent n)

  -- The rows of the active chain
  unfoldable pub index_active : ActiveChain → UtxoIndex → Node → Outcome (Unit {0})
  index_active active index n = elim (tip_of active.blocks) [
    | none ↦ (err no_active_tip, n)
    | some tip ↦ attempt consensus_raises (block_hash tip) n λ hash.
        attempt index_raises (save_snapshot hash n.state.utxos index) n λ snapshot.
          let n₁ = write_index snapshot n in
          attempt index_raises (save_tip_spends hash active.blocks snapshot) n₁
            λ spent. (ok tt, write_index spent n)
  ]

  -- The branch `if self.utxo_index is not None`
  unfoldable pub update_index : StoredBlock → ActiveChain → Node → Outcome (Unit {0})
  update_index stored active n = elim n.utxo_index [
    | none ↦ (ok tt, n)
    | some index ↦
        let (r, n') = index_imported stored index n in
        elim r [ err e ↦ (err e, n') | ok written ↦ index_active active written n' ]
  ]

  -- What the pool keeps beside the block's transactions, pruned and written to its store
  unfoldable pub drop_included : Block → Node → Outcome (Unit {0})
  drop_included b n = attempt consensus_raises (txids b.transactions) n λ included.
      attempt consensus_raises (without_txids included n.mempool) n λ rest.
        let (r, n') = prune_mempool (record n { mempool = rest }) in (r >>= λ removed. ok tt, n')

  -- The part of `import_block` after `put_block`
  unfoldable pub activate : Option StoredBlock → Block → StoredBlock → Node → Outcome StoredBlock
  activate old_tip b stored n =
      attempt fork_raises (active_chain n.fork_subsidy n.fork_limit n.store) n λ active.
        let n₁ = record n { state = active.state } in
        attempt consensus_raises (detect_reorg old_tip (tip_of active.blocks)) n₁ λ reorg.
          let (r, n₂) = update_index stored active (record n₁ { last_reorg = reorg }) in
          elim r [
            | err e ↦ (err e, n₂)
            | ok _ ↦ let (r', n₃) = drop_included b n₂ in (r' >>= λ _. ok stored, n₃)
          ]

  -- `import_block`, of a block with its hash
  unfoldable pub import_hashed : Text → Block → Node → Outcome StoredBlock
  import_hashed hash b n = elim (cached_reason hash n) [
    | some reason ↦ (err (cached_as_invalid reason), n)
    | none ↦ elim (validate_and_put b n) [
      | err e ↦ (err e, reject hash e n)
      | ok (stored, store) ↦ activate (best_tip n.store) b stored (record n { store = store })
    ]
  ]

  unfoldable pub import_block : Block → Node → Outcome StoredBlock
  import_block b n = attempt header_invalid (block_hash b) n λ hash. import_hashed hash b n

  -- `mine_block`, with the rounds that `_mine` may try
  unfoldable pub mine_block : ℕ → Text → ℕ → Node → Outcome StoredBlock
  mine_block rounds miner_address timestamp n =
      attempt (λ e. e) (build_candidate_block miner_address timestamp n) n
        λ candidate. attempt (λ e. e) (mine rounds candidate) n λ b. import_block b n
