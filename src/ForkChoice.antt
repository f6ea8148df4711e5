-- ===== src/ForkChoice.antt =====
-- `ForkChoice` of blockchaincoin/fork_choice.py, with `best_tip` and `active_chain` of the store
-- (blockchaincoin/storage.py): the best stored branch, replayed.
pub mod Replayed
pub mod Grown
pub mod Heaviest
use blockchain_coin.Shared.{
  ℕ, ◌+◌, Bool, ◌&&◌, ◌||◌, Option, some, none, List, [], ◌∷◌, map, ℤ, ltb, eqb, ltb_ℤ, eqb_ℤ,
  if◌then◌else◌, Result, ok, err, bind,
}
use blockchain_coin.Text.{Text, text_lt}
use blockchain_coin.Failure.{Error}
use blockchain_coin.Crypto.{Primitives}
use blockchain_coin.Consensus.Types.{Block}
use blockchain_coin.Consensus.Encode.{block_hash}
use blockchain_coin.Consensus.Utxo.{empty}
use blockchain_coin.Consensus.State.{ConsensusState, new_state}
use blockchain_coin.Consensus.Blocks.{rebuild_state_from_blocks}
use blockchain_coin.ForkStore.{
  StorageError, not_hashable, StoredBlock, ForkStore, put_block, chain_to_tip,
}

-- ForkChoiceError by its messages, and what passes through it.
pub data ForkChoiceError : Type 0 where
  branch_disconnected : StorageError → ForkChoiceError
  branch_invalid : Error → ForkChoiceError
  not_stored : StorageError → ForkChoiceError
  state_refused : Error → ForkChoiceError
  unreadable : Error → ForkChoiceError

pub record ActiveChain : Type 0 where
  pub blocks : List Block
  pub state : ConsensusState
  pub cumulative_work : ℕ

-- `ORDER BY cumulative_work DESC, height DESC, hash ASC`
unfoldable pub better : Text × StoredBlock → Text × StoredBlock → Bool
better p q =
    ltb q.1.cumulative_work p.1.cumulative_work
    || (eqb p.1.cumulative_work q.1.cumulative_work
        && (ltb_ℤ q.1.block.height p.1.block.height
            || (eqb_ℤ p.1.block.height q.1.block.height && text_lt p.0 q.0)))

unfoldable pub best_of : Text × StoredBlock → List (Text × StoredBlock) → Text × StoredBlock
best_of p [] = p
best_of p (q ∷ qs) = best_of (if better q p then q else p) qs

-- `best_tip`
unfoldable pub best_tip : ForkStore → Option StoredBlock
best_tip [] = none
best_tip (p ∷ ps) = some ((best_of p ps).1)

-- `ORDER BY height ASC, hash ASC`
unfoldable pub row_before : Text × StoredBlock → Text × StoredBlock → Bool
row_before p q =
    ltb_ℤ p.1.block.height q.1.block.height
    || (eqb_ℤ p.1.block.height q.1.block.height && text_lt p.0 q.0)

unfoldable pub insert_block_row :
    Text × StoredBlock → List (Text × StoredBlock) → List (Text × StoredBlock)
insert_block_row p [] = p ∷ []
insert_block_row p (q ∷ qs) =
    let rest = insert_block_row p qs in if row_before p q then p ∷ q ∷ qs else q ∷ rest

-- `iter_blocks`
unfoldable pub iter_blocks : ForkStore → List (Text × StoredBlock)
iter_blocks [] = []
iter_blocks (p ∷ ps) = insert_block_row p (iter_blocks ps)

-- `ActiveChain.tip`
unfoldable pub tip_of : List Block → Option Block
tip_of [] = none
tip_of (b ∷ []) = some b
tip_of (b ∷ c ∷ bs) = tip_of (c ∷ bs)

-- `stored_chain[-1].cumulative_work`
abbrev pub last_work : ℕ → List StoredBlock → ℕ
last_work work [] = work
last_work work (b ∷ bs) = last_work b.cumulative_work bs

abbrev pub map_error : {E F A : Type 0} → (E → F) → Result E A → Result F A
map_error f (ok a) = ok a
map_error f (err e) = err (f e)

module _ ⦃prim : Primitives⦄ where
  -- `SQLiteForkStore.active_chain`
  unfoldable pub stored_chain : ForkStore → Result StorageError (List StoredBlock)
  stored_chain store = elim (best_tip store) [
    | none ↦ ok []
    | some tip ↦
        bind (map_error not_hashable (block_hash tip.block)) λ hash. chain_to_tip hash store
  ]

  -- `_validate_stored_chain`
  unfoldable pub validate_stored_chain :
      ℤ → ℤ → List StoredBlock → Result ForkChoiceError ActiveChain
  validate_stored_chain subsidy limit chain =
      let blocks = map (λ b. b.block) chain in
      bind (map_error branch_invalid (rebuild_state_from_blocks blocks subsidy limit))
        λ s. ok (record { blocks = blocks; state = s; cumulative_work = last_work 0 chain })

  unfoldable pub validate_chain : ℤ → ℤ → List StoredBlock → Result ForkChoiceError ActiveChain
  validate_chain subsidy limit [] =
      bind (map_error state_refused (new_state empty subsidy limit))
        λ s. ok (record { blocks = []; state = s; cumulative_work = 0 })
  validate_chain subsidy limit (b ∷ bs) = validate_stored_chain subsidy limit (b ∷ bs)

  -- `ForkChoice.active_chain`
  unfoldable pub active_chain : ℤ → ℤ → ForkStore → Result ForkChoiceError ActiveChain
  active_chain subsidy limit store =
      bind (map_error branch_disconnected (stored_chain store)) (validate_chain subsidy limit)

  -- `ForkChoice.add_block`: what was stored stays, even where the replay raises.
  unfoldable pub add_block :
      ℤ → ℤ → Block → ForkStore → Result ForkChoiceError ActiveChain × ForkStore
  add_block subsidy limit b store = elim (put_block b store) [
    | err e ↦ (err (not_stored e), store)
    | ok stored ↦ (active_chain subsidy limit stored.1, stored.1)
  ]

  -- `ForkChoice.chain_to_tip`
  unfoldable pub branch_to_tip : ℤ → ℤ → Text → ForkStore → Result ForkChoiceError ActiveChain
  branch_to_tip subsidy limit tip_hash store =
      bind (map_error not_stored (chain_to_tip tip_hash store))
        (validate_stored_chain subsidy limit)

  -- The loop of `validate_all_known_branches`, over the blocks in the order of `iter_blocks`
  unfoldable pub validate_branches :
      ℤ → ℤ → List (Text × StoredBlock) → ForkStore → Result ForkChoiceError (Unit {0})
  validate_branches subsidy limit [] store = ok tt
  validate_branches subsidy limit (row ∷ rows) store =
      bind (map_error unreadable (block_hash row.1.block)) λ hash.
        bind (map_error branch_disconnected (chain_to_tip hash store)) λ chain.
          bind (validate_stored_chain subsidy limit chain)
            λ branch. validate_branches subsidy limit rows store

  unfoldable pub validate_all_known_branches : ℤ → ℤ → ForkStore → Result ForkChoiceError (Unit {0})
  validate_all_known_branches subsidy limit store =
      validate_branches subsidy limit (iter_blocks store) store
