-- ===== src/Examples/NodeWitnesses.antt =====
-- The theorems of the consensus node, applied to nodes on the small chain.
use blockchain_coin.Shared.{
  ℕ, suc, ◌+◌, ◌≤◌, ◌≡◌, ◌≢◌, refl, ◌⊎◌, true, false, none, some, Option, List, [], ◌∷◌, ℤ, pos,
  ◌≤ℤ◌, ◌<ℤ◌, ok, err, arith, lookup, subst, bind,
}
use mathlib.Core.List.{Perm}
use blockchain_coin.Text.{Text, codes, text_equality}
use blockchain_coin.Crypto.{is_valid_address}
use blockchain_coin.Consensus.Types.{Transaction, Block, zero_hash}
use blockchain_coin.Consensus.Encode.{block_hash, txid}
use blockchain_coin.Consensus.State.{ConsensusState}
use blockchain_coin.Consensus.Blocks.{apply_block, apply_all, check_header}
use blockchain_coin.ForkStore.{StoredBlock, put_hashed, new_work, check_row}
use blockchain_coin.ForkChoice.{ActiveChain, best_tip, best_of, active_chain}
use blockchain_coin.Storage.Invalid.{InvalidBlocks}
use blockchain_coin.Storage.Pool.{PoolError}
use blockchain_coin.Node.Types.{
  NodeError, coinbase_in_mempool, cached_as_invalid, parent_unknown, out_of_rounds, pool_raises,
  Node,
}
use blockchain_coin.Node.Submit.{admit, submit_transaction}
use blockchain_coin.Node.Assemble.{
  Selection, Wallet, create_transaction, mine, prioritized_from, prioritized_mempool_transactions,
  spendable_outputs,
}
use blockchain_coin.Node.Import.{import_block}
use blockchain_coin.Node.Mining.{IsUnmined, mine-check_header}
use blockchain_coin.Node.Rejected.{import_block-orphan}
use blockchain_coin.Node.Selection.{
  prioritized_mempool_transactions-applies, prioritized_mempool_transactions_ends,
}
use blockchain_coin.Node.Submitted.{
  HasAdmitted, submit_transaction-HasAdmitted, submit_transaction-raises,
}
use blockchain_coin.Node.Replayable.{IsReplayable, put_hashed-IsReplayable}
use blockchain_coin.Node.Imported.{IsSound}
use blockchain_coin.Node.Sound.{import_block-IsSound}
use blockchain_coin.Node.Active.{active_chain-returns}
use blockchain_coin.Node.Balanced.{IsBalanced, create_transaction-IsBalanced}
use blockchain_coin.Examples.Ledger.{
  toy, owner, other_owner, allocated, reward, spending, first_block, first_hash, second_block,
}
use blockchain_coin.Examples.MempoolWitnesses.{policy}
use blockchain_coin.Examples.StoreWitnesses.{first_stored, one_block}

-- Nothing is stored yet.
abbrev empty_node : Node
empty_node = record {
  store = [];
  state = record { utxos = []; block_subsidy = pos 50; max_money = pos 1000 };
  difficulty = pos 0;
  mempool = [];
  fork_subsidy = pos 50;
  fork_limit = pos 1000;
  mempool_store = some [];
  utxo_index = none;
  invalid_blocks = some [];
  mempool_policy = policy;
  last_reorg = none;
}

-- The first block is stored and active.
abbrev first_node : Node
first_node = record empty_node { store = one_block; state = allocated }

no_blocks-IsReplayable : IsReplayable (pos 50) (pos 1000) []
no_blocks-IsReplayable = record {
  distinct = tt;
  linked = λ hash b found. absurd (cc found);
  keyed = λ hash b found. absurd (cc found);
  replays = λ hash b found. absurd (cc found);
}

one_block-IsReplayable : IsReplayable (pos 50) (pos 1000) one_block
unfolding apply_block put_hashed new_work check_row blockchain_coin.Text.text_eq
    blockchain_coin.Text.starts_with blockchain_coin.Text.text_lt blockchain_coin.Text.join
    blockchain_coin.Codec.Encode.encode_int blockchain_coin.Codec.Encode.encode_uint
    blockchain_coin.Codec.Encode.encode_float blockchain_coin.Codec.Encode.encode_bytes
    blockchain_coin.Codec.Encode.encode_text blockchain_coin.Codec.Encode.encode_hash
    blockchain_coin.Codec.Encode.encode_all blockchain_coin.Codec.Words.be_bytes
    blockchain_coin.Codec.Utf8.encode_char blockchain_coin.Codec.Utf8.encode
    blockchain_coin.Codec.Hex.hex blockchain_coin.Codec.Hex.digit_value
    blockchain_coin.Codec.Hex.is_space blockchain_coin.Codec.Hex.fromhex
    blockchain_coin.Crypto.is_valid_address blockchain_coin.Crypto.encode_ascii
    blockchain_coin.Crypto.sha256_hex_text blockchain_coin.Crypto.b64decode
    blockchain_coin.Crypto.key_address blockchain_coin.Crypto.verify_signature
    blockchain_coin.Json.items_of blockchain_coin.Json.canonical_json
    blockchain_coin.Consensus.Types.outpoint_eq blockchain_coin.Consensus.Types.is_coinbase
    blockchain_coin.Consensus.Types.signing_message blockchain_coin.Consensus.Encode.optional_text
    blockchain_coin.Consensus.Encode.get_text blockchain_coin.Consensus.Encode.public_key_bytes
    blockchain_coin.Consensus.Encode.input_bytes blockchain_coin.Consensus.Encode.output_bytes
    blockchain_coin.Consensus.Encode.transaction_bytes blockchain_coin.Consensus.Encode.header_bytes
    blockchain_coin.Consensus.Encode.txid blockchain_coin.Consensus.Encode.block_hash
    blockchain_coin.Consensus.Utxo.add blockchain_coin.Consensus.Utxo.add_entries
    blockchain_coin.Consensus.Utxo.new_set blockchain_coin.Consensus.Utxo.copy
    blockchain_coin.Consensus.Utxo.spend blockchain_coin.Consensus.Utxo.get
    blockchain_coin.Consensus.Utxo.total blockchain_coin.Consensus.State.new_state
    blockchain_coin.Consensus.State.commit blockchain_coin.Consensus.State.validate_version
    blockchain_coin.Consensus.State.validate_each_output
    blockchain_coin.Consensus.State.validate_outputs
    blockchain_coin.Consensus.State.validate_coinbase blockchain_coin.Consensus.State.get_field
    blockchain_coin.Consensus.State.public_key_from_dict blockchain_coin.Consensus.State.witness
    blockchain_coin.Consensus.State.mem blockchain_coin.Consensus.State.spend_all
    blockchain_coin.Consensus.State.validate_input_signature
    blockchain_coin.Consensus.State.validate_inputs blockchain_coin.Consensus.State.validate_spend
    blockchain_coin.Consensus.State.validate_transaction blockchain_coin.Consensus.State.add_outputs
    blockchain_coin.Consensus.State.create_outputs
    blockchain_coin.Consensus.State.transaction_update
    blockchain_coin.Consensus.State.apply_transaction
    blockchain_coin.Consensus.State.coinbase_update
    blockchain_coin.Consensus.State.apply_block_coinbase
    blockchain_coin.Consensus.State.apply_genesis_coinbase
    blockchain_coin.Consensus.Merkle.parent_hash blockchain_coin.Consensus.Merkle.next_layer
    blockchain_coin.Consensus.Merkle.root_loop blockchain_coin.Consensus.Merkle.leaf
    blockchain_coin.Consensus.Merkle.leaves
    blockchain_coin.Consensus.Merkle.calculate_transaction_root
    blockchain_coin.Consensus.Blocks.any_coinbase blockchain_coin.Consensus.Blocks.first_is_coinbase
    blockchain_coin.Consensus.Blocks.is_genesis blockchain_coin.Consensus.Blocks.check_header
    blockchain_coin.Consensus.Blocks.apply_all blockchain_coin.Consensus.Blocks.apply_first
    blockchain_coin.Consensus.Blocks.apply_reward blockchain_coin.Consensus.Blocks.apply_body
    blockchain_coin.Consensus.Blocks.validate_block blockchain_coin.Consensus.Blocks.replay
    blockchain_coin.Consensus.Blocks.rebuild_state_from_blocks blockchain_coin.Shared.◌+ℤ◌
    blockchain_coin.Shared.◌-ℤ◌ blockchain_coin.Shared.sum
one_block-IsReplayable =
    put_hashed-IsReplayable (pos 50) (pos 1000) first_hash first_block [] first_stored one_block
      no_blocks-IsReplayable refl (empty_node.state, pos 0, refl, refl) refl

first_node-IsSound : IsSound first_node
first_node-IsSound = record { replayable = one_block-IsReplayable; subsidy = refl; limit = refl }

empty_node-IsSound : IsSound empty_node
empty_node-IsSound = record { replayable = no_blocks-IsReplayable; subsidy = refl; limit = refl }

import_block-IsSound_example : IsSound (import_block first_block empty_node).1
import_block-IsSound_example = import_block-IsSound first_block empty_node empty_node-IsSound

active_chain-returns_example :
    (a : ActiveChain) × (active_chain (pos 50) (pos 1000) one_block ≡ ok a)
    × ((hash : Text) (b : StoredBlock)
        → lookup hash one_block ≡ some b
        → b.cumulative_work ≤ a.cumulative_work)
unfolding best_tip best_of
active_chain-returns_example = active_chain-returns first_node first_stored first_node-IsSound refl

abbrev second_hash : Text
second_hash = codes "7070707070707070707070707070707070707070707070707070707070707070"

import_block-orphan_example :
    (cache : InvalidBlocks NodeError) × (import_block second_block empty_node
      ≡ (err parent_unknown, record empty_node { invalid_blocks = some cache }))
    × ((m : Node)
        → m.invalid_blocks ≡ some cache
        → import_block second_block m ≡ (err (cached_as_invalid parent_unknown), m))
unfolding blockchain_coin.Text.text_eq blockchain_coin.Text.starts_with blockchain_coin.Text.text_lt
    blockchain_coin.Text.join blockchain_coin.Codec.Encode.encode_int
    blockchain_coin.Codec.Encode.encode_uint blockchain_coin.Codec.Encode.encode_float
    blockchain_coin.Codec.Encode.encode_bytes blockchain_coin.Codec.Encode.encode_text
    blockchain_coin.Codec.Encode.encode_hash blockchain_coin.Codec.Encode.encode_all
    blockchain_coin.Codec.Words.be_bytes blockchain_coin.Codec.Utf8.encode_char
    blockchain_coin.Codec.Utf8.encode blockchain_coin.Codec.Hex.hex
    blockchain_coin.Codec.Hex.digit_value blockchain_coin.Codec.Hex.is_space
    blockchain_coin.Codec.Hex.fromhex blockchain_coin.Crypto.is_valid_address
    blockchain_coin.Crypto.encode_ascii blockchain_coin.Crypto.sha256_hex_text
    blockchain_coin.Crypto.b64decode blockchain_coin.Crypto.key_address
    blockchain_coin.Crypto.verify_signature blockchain_coin.Json.items_of
    blockchain_coin.Json.canonical_json blockchain_coin.Consensus.Types.outpoint_eq
    blockchain_coin.Consensus.Types.is_coinbase blockchain_coin.Consensus.Types.signing_message
    blockchain_coin.Consensus.Encode.optional_text blockchain_coin.Consensus.Encode.get_text
    blockchain_coin.Consensus.Encode.public_key_bytes blockchain_coin.Consensus.Encode.input_bytes
    blockchain_coin.Consensus.Encode.output_bytes blockchain_coin.Consensus.Encode.transaction_bytes
    blockchain_coin.Consensus.Encode.header_bytes blockchain_coin.Consensus.Encode.txid
    blockchain_coin.Consensus.Encode.block_hash blockchain_coin.Consensus.Utxo.add
    blockchain_coin.Consensus.Utxo.add_entries blockchain_coin.Consensus.Utxo.new_set
    blockchain_coin.Consensus.Utxo.copy blockchain_coin.Consensus.Utxo.spend
    blockchain_coin.Consensus.Utxo.get blockchain_coin.Consensus.Utxo.total
    blockchain_coin.Consensus.State.new_state blockchain_coin.Consensus.State.commit
    blockchain_coin.Consensus.State.validate_version
    blockchain_coin.Consensus.State.validate_each_output
    blockchain_coin.Consensus.State.validate_outputs
    blockchain_coin.Consensus.State.validate_coinbase blockchain_coin.Consensus.State.get_field
    blockchain_coin.Consensus.State.public_key_from_dict blockchain_coin.Consensus.State.witness
    blockchain_coin.Consensus.State.mem blockchain_coin.Consensus.State.spend_all
    blockchain_coin.Consensus.State.validate_input_signature
    blockchain_coin.Consensus.State.validate_inputs blockchain_coin.Consensus.State.validate_spend
    blockchain_coin.Consensus.State.validate_transaction blockchain_coin.Consensus.State.add_outputs
    blockchain_coin.Consensus.State.create_outputs
    blockchain_coin.Consensus.State.transaction_update
    blockchain_coin.Consensus.State.apply_transaction
    blockchain_coin.Consensus.State.coinbase_update
    blockchain_coin.Consensus.State.apply_block_coinbase
    blockchain_coin.Consensus.State.apply_genesis_coinbase
    blockchain_coin.Consensus.Merkle.parent_hash blockchain_coin.Consensus.Merkle.next_layer
    blockchain_coin.Consensus.Merkle.root_loop blockchain_coin.Consensus.Merkle.leaf
    blockchain_coin.Consensus.Merkle.leaves
    blockchain_coin.Consensus.Merkle.calculate_transaction_root
    blockchain_coin.Consensus.Blocks.any_coinbase blockchain_coin.Consensus.Blocks.first_is_coinbase
    blockchain_coin.Consensus.Blocks.is_genesis blockchain_coin.Consensus.Blocks.check_header
    blockchain_coin.Consensus.Blocks.apply_all blockchain_coin.Consensus.Blocks.apply_first
    blockchain_coin.Consensus.Blocks.apply_reward blockchain_coin.Consensus.Blocks.apply_body
    blockchain_coin.Consensus.Blocks.validate_block blockchain_coin.Consensus.Blocks.replay
    blockchain_coin.Consensus.Blocks.rebuild_state_from_blocks blockchain_coin.Shared.◌+ℤ◌
    blockchain_coin.Shared.◌-ℤ◌ blockchain_coin.Shared.sum
import_block-orphan_example =
    import_block-orphan second_block empty_node second_hash [] refl refl refl refl refl

abbrev spending_id : Text
spending_id = codes "cececececececececececececececececececececececececececececececece"

submitted : (submit_transaction spending first_node).0 ≡ ok spending_id
unfolding blockchain_coin.Mempool.Policy.validate blockchain_coin.Mempool.Policy.serialized_size
    blockchain_coin.Mempool.Policy.minimum_fee
    blockchain_coin.Mempool.Policy.effective_min_relay_fee_rate
    blockchain_coin.Mempool.Policy.floor_1000 blockchain_coin.Mempool.Policy.◌*ℤ◌
    blockchain_coin.Mempool.Policy.fee_rate blockchain_coin.Mempool.Prune.candidate_of
    blockchain_coin.Mempool.Prune.candidate_after
    blockchain_coin.Mempool.Prune.validate_replacement_fee blockchain_coin.Node.Types.persist
    blockchain_coin.Node.Submit.meets blockchain_coin.Node.Submit.conflicting
    blockchain_coin.Node.Submit.mem_text blockchain_coin.Node.Submit.score_lt
    blockchain_coin.Node.Submit.txids blockchain_coin.Node.Submit.has_txid
    blockchain_coin.Node.Submit.without_txids blockchain_coin.Node.Submit.replacement_context
    blockchain_coin.Node.Submit.policy_score blockchain_coin.Node.Submit.fees_from
    blockchain_coin.Node.Submit.transaction_fees blockchain_coin.Node.Submit.fee_of
    blockchain_coin.Node.Submit.fee_after blockchain_coin.Node.Submit.evict_from
    blockchain_coin.Node.Submit.evict_cheapest blockchain_coin.Node.Submit.evict_for_policy
    blockchain_coin.Node.Submit.make_room blockchain_coin.Node.Submit.admit
    blockchain_coin.Node.Submit.submit_transaction blockchain_coin.Storage.Pool.encode_row
    blockchain_coin.Storage.Pool.insert_rows blockchain_coin.Storage.Pool.row_of
    blockchain_coin.Storage.Pool.rows_of blockchain_coin.Storage.Pool.replace_all
    blockchain_coin.Node.Assemble.pop_at blockchain_coin.Node.Assemble.select_outputs
    blockchain_coin.Node.Assemble.payment_outputs blockchain_coin.Node.Assemble.unsigned_spend
    blockchain_coin.Node.Assemble.sign_from blockchain_coin.Node.Assemble.create_transaction
    blockchain_coin.Node.Assemble.best_pending blockchain_coin.Node.Assemble.pop_best
    blockchain_coin.Node.Assemble.prioritized_from
    blockchain_coin.Node.Assemble.prioritized_mempool_transactions
    blockchain_coin.Consensus.State.sign_input blockchain_coin.Consensus.State.replace_witness
    blockchain_coin.Consensus.Utxo.insert_entry blockchain_coin.Consensus.Utxo.sort_entries
    blockchain_coin.Consensus.Utxo.entries blockchain_coin.Consensus.Utxo.owned_by
    blockchain_coin.Consensus.Utxo.entries_for_address blockchain_coin.Consensus.Utxo.outpoint_lt
    blockchain_coin.Text.text_eq blockchain_coin.Text.starts_with blockchain_coin.Text.text_lt
    blockchain_coin.Text.join blockchain_coin.Codec.Encode.encode_int
    blockchain_coin.Codec.Encode.encode_uint blockchain_coin.Codec.Encode.encode_float
    blockchain_coin.Codec.Encode.encode_bytes blockchain_coin.Codec.Encode.encode_text
    blockchain_coin.Codec.Encode.encode_hash blockchain_coin.Codec.Encode.encode_all
    blockchain_coin.Codec.Words.be_bytes blockchain_coin.Codec.Utf8.encode_char
    blockchain_coin.Codec.Utf8.encode blockchain_coin.Codec.Hex.hex
    blockchain_coin.Codec.Hex.digit_value blockchain_coin.Codec.Hex.is_space
    blockchain_coin.Codec.Hex.fromhex blockchain_coin.Crypto.is_valid_address
    blockchain_coin.Crypto.encode_ascii blockchain_coin.Crypto.sha256_hex_text
    blockchain_coin.Crypto.b64decode blockchain_coin.Crypto.key_address
    blockchain_coin.Crypto.verify_signature blockchain_coin.Json.items_of
    blockchain_coin.Json.canonical_json blockchain_coin.Consensus.Types.outpoint_eq
    blockchain_coin.Consensus.Types.is_coinbase blockchain_coin.Consensus.Types.signing_message
    blockchain_coin.Consensus.Encode.optional_text blockchain_coin.Consensus.Encode.get_text
    blockchain_coin.Consensus.Encode.public_key_bytes blockchain_coin.Consensus.Encode.input_bytes
    blockchain_coin.Consensus.Encode.output_bytes blockchain_coin.Consensus.Encode.transaction_bytes
    blockchain_coin.Consensus.Encode.header_bytes blockchain_coin.Consensus.Encode.txid
    blockchain_coin.Consensus.Encode.block_hash blockchain_coin.Consensus.Utxo.add
    blockchain_coin.Consensus.Utxo.add_entries blockchain_coin.Consensus.Utxo.new_set
    blockchain_coin.Consensus.Utxo.copy blockchain_coin.Consensus.Utxo.spend
    blockchain_coin.Consensus.Utxo.get blockchain_coin.Consensus.Utxo.total
    blockchain_coin.Consensus.State.new_state blockchain_coin.Consensus.State.commit
    blockchain_coin.Consensus.State.validate_version
    blockchain_coin.Consensus.State.validate_each_output
    blockchain_coin.Consensus.State.validate_outputs
    blockchain_coin.Consensus.State.validate_coinbase blockchain_coin.Consensus.State.get_field
    blockchain_coin.Consensus.State.public_key_from_dict blockchain_coin.Consensus.State.witness
    blockchain_coin.Consensus.State.mem blockchain_coin.Consensus.State.spend_all
    blockchain_coin.Consensus.State.validate_input_signature
    blockchain_coin.Consensus.State.validate_inputs blockchain_coin.Consensus.State.validate_spend
    blockchain_coin.Consensus.State.validate_transaction blockchain_coin.Consensus.State.add_outputs
    blockchain_coin.Consensus.State.create_outputs
    blockchain_coin.Consensus.State.transaction_update
    blockchain_coin.Consensus.State.apply_transaction
    blockchain_coin.Consensus.State.coinbase_update
    blockchain_coin.Consensus.State.apply_block_coinbase
    blockchain_coin.Consensus.State.apply_genesis_coinbase
    blockchain_coin.Consensus.Merkle.parent_hash blockchain_coin.Consensus.Merkle.next_layer
    blockchain_coin.Consensus.Merkle.root_loop blockchain_coin.Consensus.Merkle.leaf
    blockchain_coin.Consensus.Merkle.leaves
    blockchain_coin.Consensus.Merkle.calculate_transaction_root
    blockchain_coin.Consensus.Blocks.any_coinbase blockchain_coin.Consensus.Blocks.first_is_coinbase
    blockchain_coin.Consensus.Blocks.is_genesis blockchain_coin.Consensus.Blocks.check_header
    blockchain_coin.Consensus.Blocks.apply_all blockchain_coin.Consensus.Blocks.apply_first
    blockchain_coin.Consensus.Blocks.apply_reward blockchain_coin.Consensus.Blocks.apply_body
    blockchain_coin.Consensus.Blocks.validate_block blockchain_coin.Consensus.Blocks.replay
    blockchain_coin.Consensus.Blocks.rebuild_state_from_blocks blockchain_coin.Shared.◌+ℤ◌
    blockchain_coin.Shared.◌-ℤ◌ blockchain_coin.Shared.sum
submitted = refl

submit_transaction-HasAdmitted_example :
    HasAdmitted first_node spending spending_id (submit_transaction spending first_node).1
submit_transaction-HasAdmitted_example =
    submit_transaction-HasAdmitted spending first_node spending_id submitted

refused : (submit_transaction reward first_node).0 ≡ err coinbase_in_mempool
unfolding blockchain_coin.Mempool.Policy.validate blockchain_coin.Mempool.Policy.serialized_size
    blockchain_coin.Mempool.Policy.minimum_fee
    blockchain_coin.Mempool.Policy.effective_min_relay_fee_rate
    blockchain_coin.Mempool.Policy.floor_1000 blockchain_coin.Mempool.Policy.◌*ℤ◌
    blockchain_coin.Mempool.Policy.fee_rate blockchain_coin.Mempool.Prune.candidate_of
    blockchain_coin.Mempool.Prune.candidate_after
    blockchain_coin.Mempool.Prune.validate_replacement_fee blockchain_coin.Node.Types.persist
    blockchain_coin.Node.Submit.meets blockchain_coin.Node.Submit.conflicting
    blockchain_coin.Node.Submit.mem_text blockchain_coin.Node.Submit.score_lt
    blockchain_coin.Node.Submit.txids blockchain_coin.Node.Submit.has_txid
    blockchain_coin.Node.Submit.without_txids blockchain_coin.Node.Submit.replacement_context
    blockchain_coin.Node.Submit.policy_score blockchain_coin.Node.Submit.fees_from
    blockchain_coin.Node.Submit.transaction_fees blockchain_coin.Node.Submit.fee_of
    blockchain_coin.Node.Submit.fee_after blockchain_coin.Node.Submit.evict_from
    blockchain_coin.Node.Submit.evict_cheapest blockchain_coin.Node.Submit.evict_for_policy
    blockchain_coin.Node.Submit.make_room blockchain_coin.Node.Submit.admit
    blockchain_coin.Node.Submit.submit_transaction blockchain_coin.Storage.Pool.encode_row
    blockchain_coin.Storage.Pool.insert_rows blockchain_coin.Storage.Pool.row_of
    blockchain_coin.Storage.Pool.rows_of blockchain_coin.Storage.Pool.replace_all
    blockchain_coin.Node.Assemble.pop_at blockchain_coin.Node.Assemble.select_outputs
    blockchain_coin.Node.Assemble.payment_outputs blockchain_coin.Node.Assemble.unsigned_spend
    blockchain_coin.Node.Assemble.sign_from blockchain_coin.Node.Assemble.create_transaction
    blockchain_coin.Node.Assemble.best_pending blockchain_coin.Node.Assemble.pop_best
    blockchain_coin.Node.Assemble.prioritized_from
    blockchain_coin.Node.Assemble.prioritized_mempool_transactions
    blockchain_coin.Consensus.State.sign_input blockchain_coin.Consensus.State.replace_witness
    blockchain_coin.Consensus.Utxo.insert_entry blockchain_coin.Consensus.Utxo.sort_entries
    blockchain_coin.Consensus.Utxo.entries blockchain_coin.Consensus.Utxo.owned_by
    blockchain_coin.Consensus.Utxo.entries_for_address blockchain_coin.Consensus.Utxo.outpoint_lt
    blockchain_coin.Text.text_eq blockchain_coin.Text.starts_with blockchain_coin.Text.text_lt
    blockchain_coin.Text.join blockchain_coin.Codec.Encode.encode_int
    blockchain_coin.Codec.Encode.encode_uint blockchain_coin.Codec.Encode.encode_float
    blockchain_coin.Codec.Encode.encode_bytes blockchain_coin.Codec.Encode.encode_text
    blockchain_coin.Codec.Encode.encode_hash blockchain_coin.Codec.Encode.encode_all
    blockchain_coin.Codec.Words.be_bytes blockchain_coin.Codec.Utf8.encode_char
    blockchain_coin.Codec.Utf8.encode blockchain_coin.Codec.Hex.hex
    blockchain_coin.Codec.Hex.digit_value blockchain_coin.Codec.Hex.is_space
    blockchain_coin.Codec.Hex.fromhex blockchain_coin.Crypto.is_valid_address
    blockchain_coin.Crypto.encode_ascii blockchain_coin.Crypto.sha256_hex_text
    blockchain_coin.Crypto.b64decode blockchain_coin.Crypto.key_address
    blockchain_coin.Crypto.verify_signature blockchain_coin.Json.items_of
    blockchain_coin.Json.canonical_json blockchain_coin.Consensus.Types.outpoint_eq
    blockchain_coin.Consensus.Types.is_coinbase blockchain_coin.Consensus.Types.signing_message
    blockchain_coin.Consensus.Encode.optional_text blockchain_coin.Consensus.Encode.get_text
    blockchain_coin.Consensus.Encode.public_key_bytes blockchain_coin.Consensus.Encode.input_bytes
    blockchain_coin.Consensus.Encode.output_bytes blockchain_coin.Consensus.Encode.transaction_bytes
    blockchain_coin.Consensus.Encode.header_bytes blockchain_coin.Consensus.Encode.txid
    blockchain_coin.Consensus.Encode.block_hash blockchain_coin.Consensus.Utxo.add
    blockchain_coin.Consensus.Utxo.add_entries blockchain_coin.Consensus.Utxo.new_set
    blockchain_coin.Consensus.Utxo.copy blockchain_coin.Consensus.Utxo.spend
    blockchain_coin.Consensus.Utxo.get blockchain_coin.Consensus.Utxo.total
    blockchain_coin.Consensus.State.new_state blockchain_coin.Consensus.State.commit
    blockchain_coin.Consensus.State.validate_version
    blockchain_coin.Consensus.State.validate_each_output
    blockchain_coin.Consensus.State.validate_outputs
    blockchain_coin.Consensus.State.validate_coinbase blockchain_coin.Consensus.State.get_field
    blockchain_coin.Consensus.State.public_key_from_dict blockchain_coin.Consensus.State.witness
    blockchain_coin.Consensus.State.mem blockchain_coin.Consensus.State.spend_all
    blockchain_coin.Consensus.State.validate_input_signature
    blockchain_coin.Consensus.State.validate_inputs blockchain_coin.Consensus.State.validate_spend
    blockchain_coin.Consensus.State.validate_transaction blockchain_coin.Consensus.State.add_outputs
    blockchain_coin.Consensus.State.create_outputs
    blockchain_coin.Consensus.State.transaction_update
    blockchain_coin.Consensus.State.apply_transaction
    blockchain_coin.Consensus.State.coinbase_update
    blockchain_coin.Consensus.State.apply_block_coinbase
    blockchain_coin.Consensus.State.apply_genesis_coinbase
    blockchain_coin.Consensus.Merkle.parent_hash blockchain_coin.Consensus.Merkle.next_layer
    blockchain_coin.Consensus.Merkle.root_loop blockchain_coin.Consensus.Merkle.leaf
    blockchain_coin.Consensus.Merkle.leaves
    blockchain_coin.Consensus.Merkle.calculate_transaction_root
    blockchain_coin.Consensus.Blocks.any_coinbase blockchain_coin.Consensus.Blocks.first_is_coinbase
    blockchain_coin.Consensus.Blocks.is_genesis blockchain_coin.Consensus.Blocks.check_header
    blockchain_coin.Consensus.Blocks.apply_all blockchain_coin.Consensus.Blocks.apply_first
    blockchain_coin.Consensus.Blocks.apply_reward blockchain_coin.Consensus.Blocks.apply_body
    blockchain_coin.Consensus.Blocks.validate_block blockchain_coin.Consensus.Blocks.replay
    blockchain_coin.Consensus.Blocks.rebuild_state_from_blocks blockchain_coin.Shared.◌+ℤ◌
    blockchain_coin.Shared.◌-ℤ◌ blockchain_coin.Shared.sum
refused = refl

submit_transaction-raises_example :
    ((submit_transaction reward first_node).1 ≡ first_node)
    ⊎ ((p : PoolError) × (coinbase_in_mempool ≡ pool_raises p)
        × ((entry : Text × List Transaction) × (admit first_node reward ≡ ok entry)))
submit_transaction-raises_example =
    submit_transaction-raises reward first_node coinbase_in_mempool refused

abbrev chosen : Selection
chosen = record {
  selected = spending ∷ [];
  fees = pos 5;
  candidate = (blockchain_coin.Consensus.State.apply_transaction spending allocated).1;
}

selected : prioritized_mempool_transactions (spending ∷ []) allocated ≡ ok chosen
unfolding blockchain_coin.Mempool.Policy.validate blockchain_coin.Mempool.Policy.serialized_size
    blockchain_coin.Mempool.Policy.minimum_fee
    blockchain_coin.Mempool.Policy.effective_min_relay_fee_rate
    blockchain_coin.Mempool.Policy.floor_1000 blockchain_coin.Mempool.Policy.◌*ℤ◌
    blockchain_coin.Mempool.Policy.fee_rate blockchain_coin.Mempool.Prune.candidate_of
    blockchain_coin.Mempool.Prune.candidate_after
    blockchain_coin.Mempool.Prune.validate_replacement_fee blockchain_coin.Node.Types.persist
    blockchain_coin.Node.Submit.meets blockchain_coin.Node.Submit.conflicting
    blockchain_coin.Node.Submit.mem_text blockchain_coin.Node.Submit.score_lt
    blockchain_coin.Node.Submit.txids blockchain_coin.Node.Submit.has_txid
    blockchain_coin.Node.Submit.without_txids blockchain_coin.Node.Submit.replacement_context
    blockchain_coin.Node.Submit.policy_score blockchain_coin.Node.Submit.fees_from
    blockchain_coin.Node.Submit.transaction_fees blockchain_coin.Node.Submit.fee_of
    blockchain_coin.Node.Submit.fee_after blockchain_coin.Node.Submit.evict_from
    blockchain_coin.Node.Submit.evict_cheapest blockchain_coin.Node.Submit.evict_for_policy
    blockchain_coin.Node.Submit.make_room blockchain_coin.Node.Submit.admit
    blockchain_coin.Node.Submit.submit_transaction blockchain_coin.Storage.Pool.encode_row
    blockchain_coin.Storage.Pool.insert_rows blockchain_coin.Storage.Pool.row_of
    blockchain_coin.Storage.Pool.rows_of blockchain_coin.Storage.Pool.replace_all
    blockchain_coin.Node.Assemble.pop_at blockchain_coin.Node.Assemble.select_outputs
    blockchain_coin.Node.Assemble.payment_outputs blockchain_coin.Node.Assemble.unsigned_spend
    blockchain_coin.Node.Assemble.sign_from blockchain_coin.Node.Assemble.create_transaction
    blockchain_coin.Node.Assemble.best_pending blockchain_coin.Node.Assemble.pop_best
    blockchain_coin.Node.Assemble.prioritized_from
    blockchain_coin.Node.Assemble.prioritized_mempool_transactions
    blockchain_coin.Consensus.State.sign_input blockchain_coin.Consensus.State.replace_witness
    blockchain_coin.Consensus.Utxo.insert_entry blockchain_coin.Consensus.Utxo.sort_entries
    blockchain_coin.Consensus.Utxo.entries blockchain_coin.Consensus.Utxo.owned_by
    blockchain_coin.Consensus.Utxo.entries_for_address blockchain_coin.Consensus.Utxo.outpoint_lt
    blockchain_coin.Text.text_eq blockchain_coin.Text.starts_with blockchain_coin.Text.text_lt
    blockchain_coin.Text.join blockchain_coin.Codec.Encode.encode_int
    blockchain_coin.Codec.Encode.encode_uint blockchain_coin.Codec.Encode.encode_float
    blockchain_coin.Codec.Encode.encode_bytes blockchain_coin.Codec.Encode.encode_text
    blockchain_coin.Codec.Encode.encode_hash blockchain_coin.Codec.Encode.encode_all
    blockchain_coin.Codec.Words.be_bytes blockchain_coin.Codec.Utf8.encode_char
    blockchain_coin.Codec.Utf8.encode blockchain_coin.Codec.Hex.hex
    blockchain_coin.Codec.Hex.digit_value blockchain_coin.Codec.Hex.is_space
    blockchain_coin.Codec.Hex.fromhex blockchain_coin.Crypto.is_valid_address
    blockchain_coin.Crypto.encode_ascii blockchain_coin.Crypto.sha256_hex_text
    blockchain_coin.Crypto.b64decode blockchain_coin.Crypto.key_address
    blockchain_coin.Crypto.verify_signature blockchain_coin.Json.items_of
    blockchain_coin.Json.canonical_json blockchain_coin.Consensus.Types.outpoint_eq
    blockchain_coin.Consensus.Types.is_coinbase blockchain_coin.Consensus.Types.signing_message
    blockchain_coin.Consensus.Encode.optional_text blockchain_coin.Consensus.Encode.get_text
    blockchain_coin.Consensus.Encode.public_key_bytes blockchain_coin.Consensus.Encode.input_bytes
    blockchain_coin.Consensus.Encode.output_bytes blockchain_coin.Consensus.Encode.transaction_bytes
    blockchain_coin.Consensus.Encode.header_bytes blockchain_coin.Consensus.Encode.txid
    blockchain_coin.Consensus.Encode.block_hash blockchain_coin.Consensus.Utxo.add
    blockchain_coin.Consensus.Utxo.add_entries blockchain_coin.Consensus.Utxo.new_set
    blockchain_coin.Consensus.Utxo.copy blockchain_coin.Consensus.Utxo.spend
    blockchain_coin.Consensus.Utxo.get blockchain_coin.Consensus.Utxo.total
    blockchain_coin.Consensus.State.new_state blockchain_coin.Consensus.State.commit
    blockchain_coin.Consensus.State.validate_version
    blockchain_coin.Consensus.State.validate_each_output
    blockchain_coin.Consensus.State.validate_outputs
    blockchain_coin.Consensus.State.validate_coinbase blockchain_coin.Consensus.State.get_field
    blockchain_coin.Consensus.State.public_key_from_dict blockchain_coin.Consensus.State.witness
    blockchain_coin.Consensus.State.mem blockchain_coin.Consensus.State.spend_all
    blockchain_coin.Consensus.State.validate_input_signature
    blockchain_coin.Consensus.State.validate_inputs blockchain_coin.Consensus.State.validate_spend
    blockchain_coin.Consensus.State.validate_transaction blockchain_coin.Consensus.State.add_outputs
    blockchain_coin.Consensus.State.create_outputs
    blockchain_coin.Consensus.State.transaction_update
    blockchain_coin.Consensus.State.apply_transaction
    blockchain_coin.Consensus.State.coinbase_update
    blockchain_coin.Consensus.State.apply_block_coinbase
    blockchain_coin.Consensus.State.apply_genesis_coinbase
    blockchain_coin.Consensus.Merkle.parent_hash blockchain_coin.Consensus.Merkle.next_layer
    blockchain_coin.Consensus.Merkle.root_loop blockchain_coin.Consensus.Merkle.leaf
    blockchain_coin.Consensus.Merkle.leaves
    blockchain_coin.Consensus.Merkle.calculate_transaction_root
    blockchain_coin.Consensus.Blocks.any_coinbase blockchain_coin.Consensus.Blocks.first_is_coinbase
    blockchain_coin.Consensus.Blocks.is_genesis blockchain_coin.Consensus.Blocks.check_header
    blockchain_coin.Consensus.Blocks.apply_all blockchain_coin.Consensus.Blocks.apply_first
    blockchain_coin.Consensus.Blocks.apply_reward blockchain_coin.Consensus.Blocks.apply_body
    blockchain_coin.Consensus.Blocks.validate_block blockchain_coin.Consensus.Blocks.replay
    blockchain_coin.Consensus.Blocks.rebuild_state_from_blocks blockchain_coin.Shared.◌+ℤ◌
    blockchain_coin.Shared.◌-ℤ◌ blockchain_coin.Shared.sum
selected = refl

prioritized_mempool_transactions-applies_example :
    Perm (spending ∷ []) chosen.selected
    × (apply_all (pos 0) chosen.selected allocated ≡ (ok chosen.fees, chosen.candidate))
prioritized_mempool_transactions-applies_example =
    prioritized_mempool_transactions-applies (spending ∷ []) allocated chosen selected

prioritized_mempool_transactions_ends_example :
    prioritized_mempool_transactions (spending ∷ []) allocated ≢ err out_of_rounds
prioritized_mempool_transactions_ends_example =
    prioritized_mempool_transactions_ends (spending ∷ []) allocated

second_block-IsUnmined : IsUnmined second_block
unfolding blockchain_coin.Text.text_eq blockchain_coin.Text.starts_with blockchain_coin.Text.text_lt
    blockchain_coin.Text.join blockchain_coin.Codec.Encode.encode_int
    blockchain_coin.Codec.Encode.encode_uint blockchain_coin.Codec.Encode.encode_float
    blockchain_coin.Codec.Encode.encode_bytes blockchain_coin.Codec.Encode.encode_text
    blockchain_coin.Codec.Encode.encode_hash blockchain_coin.Codec.Encode.encode_all
    blockchain_coin.Codec.Words.be_bytes blockchain_coin.Codec.Utf8.encode_char
    blockchain_coin.Codec.Utf8.encode blockchain_coin.Codec.Hex.hex
    blockchain_coin.Codec.Hex.digit_value blockchain_coin.Codec.Hex.is_space
    blockchain_coin.Codec.Hex.fromhex blockchain_coin.Crypto.is_valid_address
    blockchain_coin.Crypto.encode_ascii blockchain_coin.Crypto.sha256_hex_text
    blockchain_coin.Crypto.b64decode blockchain_coin.Crypto.key_address
    blockchain_coin.Crypto.verify_signature blockchain_coin.Json.items_of
    blockchain_coin.Json.canonical_json blockchain_coin.Consensus.Types.outpoint_eq
    blockchain_coin.Consensus.Types.is_coinbase blockchain_coin.Consensus.Types.signing_message
    blockchain_coin.Consensus.Encode.optional_text blockchain_coin.Consensus.Encode.get_text
    blockchain_coin.Consensus.Encode.public_key_bytes blockchain_coin.Consensus.Encode.input_bytes
    blockchain_coin.Consensus.Encode.output_bytes blockchain_coin.Consensus.Encode.transaction_bytes
    blockchain_coin.Consensus.Encode.header_bytes blockchain_coin.Consensus.Encode.txid
    blockchain_coin.Consensus.Encode.block_hash blockchain_coin.Consensus.Utxo.add
    blockchain_coin.Consensus.Utxo.add_entries blockchain_coin.Consensus.Utxo.new_set
    blockchain_coin.Consensus.Utxo.copy blockchain_coin.Consensus.Utxo.spend
    blockchain_coin.Consensus.Utxo.get blockchain_coin.Consensus.Utxo.total
    blockchain_coin.Consensus.State.new_state blockchain_coin.Consensus.State.commit
    blockchain_coin.Consensus.State.validate_version
    blockchain_coin.Consensus.State.validate_each_output
    blockchain_coin.Consensus.State.validate_outputs
    blockchain_coin.Consensus.State.validate_coinbase blockchain_coin.Consensus.State.get_field
    blockchain_coin.Consensus.State.public_key_from_dict blockchain_coin.Consensus.State.witness
    blockchain_coin.Consensus.State.mem blockchain_coin.Consensus.State.spend_all
    blockchain_coin.Consensus.State.validate_input_signature
    blockchain_coin.Consensus.State.validate_inputs blockchain_coin.Consensus.State.validate_spend
    blockchain_coin.Consensus.State.validate_transaction blockchain_coin.Consensus.State.add_outputs
    blockchain_coin.Consensus.State.create_outputs
    blockchain_coin.Consensus.State.transaction_update
    blockchain_coin.Consensus.State.apply_transaction
    blockchain_coin.Consensus.State.coinbase_update
    blockchain_coin.Consensus.State.apply_block_coinbase
    blockchain_coin.Consensus.State.apply_genesis_coinbase
    blockchain_coin.Consensus.Merkle.parent_hash blockchain_coin.Consensus.Merkle.next_layer
    blockchain_coin.Consensus.Merkle.root_loop blockchain_coin.Consensus.Merkle.leaf
    blockchain_coin.Consensus.Merkle.leaves
    blockchain_coin.Consensus.Merkle.calculate_transaction_root
    blockchain_coin.Consensus.Blocks.any_coinbase blockchain_coin.Consensus.Blocks.first_is_coinbase
    blockchain_coin.Consensus.Blocks.is_genesis blockchain_coin.Consensus.Blocks.check_header
    blockchain_coin.Consensus.Blocks.apply_all blockchain_coin.Consensus.Blocks.apply_first
    blockchain_coin.Consensus.Blocks.apply_reward blockchain_coin.Consensus.Blocks.apply_body
    blockchain_coin.Consensus.Blocks.validate_block blockchain_coin.Consensus.Blocks.replay
    blockchain_coin.Consensus.Blocks.rebuild_state_from_blocks blockchain_coin.Shared.◌+ℤ◌
    blockchain_coin.Shared.◌-ℤ◌ blockchain_coin.Shared.sum
second_block-IsUnmined = record {
  version_one = refl;
  nonnegative = omega arith;
  rooted = refl;
  some_transactions = refl;
  coinbase_first = refl;
  no_other = refl;
}

mined : mine 1 second_block ≡ ok second_block
unfolding mine blockchain_coin.Text.text_eq blockchain_coin.Text.starts_with
    blockchain_coin.Text.text_lt blockchain_coin.Text.join blockchain_coin.Codec.Encode.encode_int
    blockchain_coin.Codec.Encode.encode_uint blockchain_coin.Codec.Encode.encode_float
    blockchain_coin.Codec.Encode.encode_bytes blockchain_coin.Codec.Encode.encode_text
    blockchain_coin.Codec.Encode.encode_hash blockchain_coin.Codec.Encode.encode_all
    blockchain_coin.Codec.Words.be_bytes blockchain_coin.Codec.Utf8.encode_char
    blockchain_coin.Codec.Utf8.encode blockchain_coin.Codec.Hex.hex
    blockchain_coin.Codec.Hex.digit_value blockchain_coin.Codec.Hex.is_space
    blockchain_coin.Codec.Hex.fromhex blockchain_coin.Crypto.is_valid_address
    blockchain_coin.Crypto.encode_ascii blockchain_coin.Crypto.sha256_hex_text
    blockchain_coin.Crypto.b64decode blockchain_coin.Crypto.key_address
    blockchain_coin.Crypto.verify_signature blockchain_coin.Json.items_of
    blockchain_coin.Json.canonical_json blockchain_coin.Consensus.Types.outpoint_eq
    blockchain_coin.Consensus.Types.is_coinbase blockchain_coin.Consensus.Types.signing_message
    blockchain_coin.Consensus.Encode.optional_text blockchain_coin.Consensus.Encode.get_text
    blockchain_coin.Consensus.Encode.public_key_bytes blockchain_coin.Consensus.Encode.input_bytes
    blockchain_coin.Consensus.Encode.output_bytes blockchain_coin.Consensus.Encode.transaction_bytes
    blockchain_coin.Consensus.Encode.header_bytes blockchain_coin.Consensus.Encode.txid
    blockchain_coin.Consensus.Encode.block_hash blockchain_coin.Consensus.Utxo.add
    blockchain_coin.Consensus.Utxo.add_entries blockchain_coin.Consensus.Utxo.new_set
    blockchain_coin.Consensus.Utxo.copy blockchain_coin.Consensus.Utxo.spend
    blockchain_coin.Consensus.Utxo.get blockchain_coin.Consensus.Utxo.total
    blockchain_coin.Consensus.State.new_state blockchain_coin.Consensus.State.commit
    blockchain_coin.Consensus.State.validate_version
    blockchain_coin.Consensus.State.validate_each_output
    blockchain_coin.Consensus.State.validate_outputs
    blockchain_coin.Consensus.State.validate_coinbase blockchain_coin.Consensus.State.get_field
    blockchain_coin.Consensus.State.public_key_from_dict blockchain_coin.Consensus.State.witness
    blockchain_coin.Consensus.State.mem blockchain_coin.Consensus.State.spend_all
    blockchain_coin.Consensus.State.validate_input_signature
    blockchain_coin.Consensus.State.validate_inputs blockchain_coin.Consensus.State.validate_spend
    blockchain_coin.Consensus.State.validate_transaction blockchain_coin.Consensus.State.add_outputs
    blockchain_coin.Consensus.State.create_outputs
    blockchain_coin.Consensus.State.transaction_update
    blockchain_coin.Consensus.State.apply_transaction
    blockchain_coin.Consensus.State.coinbase_update
    blockchain_coin.Consensus.State.apply_block_coinbase
    blockchain_coin.Consensus.State.apply_genesis_coinbase
    blockchain_coin.Consensus.Merkle.parent_hash blockchain_coin.Consensus.Merkle.next_layer
    blockchain_coin.Consensus.Merkle.root_loop blockchain_coin.Consensus.Merkle.leaf
    blockchain_coin.Consensus.Merkle.leaves
    blockchain_coin.Consensus.Merkle.calculate_transaction_root
    blockchain_coin.Consensus.Blocks.any_coinbase blockchain_coin.Consensus.Blocks.first_is_coinbase
    blockchain_coin.Consensus.Blocks.is_genesis blockchain_coin.Consensus.Blocks.check_header
    blockchain_coin.Consensus.Blocks.apply_all blockchain_coin.Consensus.Blocks.apply_first
    blockchain_coin.Consensus.Blocks.apply_reward blockchain_coin.Consensus.Blocks.apply_body
    blockchain_coin.Consensus.Blocks.validate_block blockchain_coin.Consensus.Blocks.replay
    blockchain_coin.Consensus.Blocks.rebuild_state_from_blocks blockchain_coin.Shared.◌+ℤ◌
    blockchain_coin.Shared.◌-ℤ◌ blockchain_coin.Shared.sum
mined = refl

mine-check_header_example : check_header second_block (pos 1) first_hash ≡ ok tt
mine-check_header_example =
    mine-check_header 1 second_block second_block second_block-IsUnmined mined

abbrev wallet : Wallet
wallet = record {
  address = owner;
  public_key = (codes "algorithm", codes "ed25519") ∷ (codes "key", codes "k") ∷ [];
  sign = λ message. codes "s";
}

created : create_transaction wallet other_owner (pos 30) (pos 5) first_node ≡ ok spending
unfolding blockchain_coin.Mempool.Policy.validate blockchain_coin.Mempool.Policy.serialized_size
    blockchain_coin.Mempool.Policy.minimum_fee
    blockchain_coin.Mempool.Policy.effective_min_relay_fee_rate
    blockchain_coin.Mempool.Policy.floor_1000 blockchain_coin.Mempool.Policy.◌*ℤ◌
    blockchain_coin.Mempool.Policy.fee_rate blockchain_coin.Mempool.Prune.candidate_of
    blockchain_coin.Mempool.Prune.candidate_after
    blockchain_coin.Mempool.Prune.validate_replacement_fee blockchain_coin.Node.Types.persist
    blockchain_coin.Node.Submit.meets blockchain_coin.Node.Submit.conflicting
    blockchain_coin.Node.Submit.mem_text blockchain_coin.Node.Submit.score_lt
    blockchain_coin.Node.Submit.txids blockchain_coin.Node.Submit.has_txid
    blockchain_coin.Node.Submit.without_txids blockchain_coin.Node.Submit.replacement_context
    blockchain_coin.Node.Submit.policy_score blockchain_coin.Node.Submit.fees_from
    blockchain_coin.Node.Submit.transaction_fees blockchain_coin.Node.Submit.fee_of
    blockchain_coin.Node.Submit.fee_after blockchain_coin.Node.Submit.evict_from
    blockchain_coin.Node.Submit.evict_cheapest blockchain_coin.Node.Submit.evict_for_policy
    blockchain_coin.Node.Submit.make_room blockchain_coin.Node.Submit.admit
    blockchain_coin.Node.Submit.submit_transaction blockchain_coin.Storage.Pool.encode_row
    blockchain_coin.Storage.Pool.insert_rows blockchain_coin.Storage.Pool.row_of
    blockchain_coin.Storage.Pool.rows_of blockchain_coin.Storage.Pool.replace_all
    blockchain_coin.Node.Assemble.pop_at blockchain_coin.Node.Assemble.select_outputs
    blockchain_coin.Node.Assemble.payment_outputs blockchain_coin.Node.Assemble.unsigned_spend
    blockchain_coin.Node.Assemble.sign_from blockchain_coin.Node.Assemble.create_transaction
    blockchain_coin.Node.Assemble.best_pending blockchain_coin.Node.Assemble.pop_best
    blockchain_coin.Node.Assemble.prioritized_from
    blockchain_coin.Node.Assemble.prioritized_mempool_transactions
    blockchain_coin.Consensus.State.sign_input blockchain_coin.Consensus.State.replace_witness
    blockchain_coin.Consensus.Utxo.insert_entry blockchain_coin.Consensus.Utxo.sort_entries
    blockchain_coin.Consensus.Utxo.entries blockchain_coin.Consensus.Utxo.owned_by
    blockchain_coin.Consensus.Utxo.entries_for_address blockchain_coin.Consensus.Utxo.outpoint_lt
    blockchain_coin.Text.text_eq blockchain_coin.Text.starts_with blockchain_coin.Text.text_lt
    blockchain_coin.Text.join blockchain_coin.Codec.Encode.encode_int
    blockchain_coin.Codec.Encode.encode_uint blockchain_coin.Codec.Encode.encode_float
    blockchain_coin.Codec.Encode.encode_bytes blockchain_coin.Codec.Encode.encode_text
    blockchain_coin.Codec.Encode.encode_hash blockchain_coin.Codec.Encode.encode_all
    blockchain_coin.Codec.Words.be_bytes blockchain_coin.Codec.Utf8.encode_char
    blockchain_coin.Codec.Utf8.encode blockchain_coin.Codec.Hex.hex
    blockchain_coin.Codec.Hex.digit_value blockchain_coin.Codec.Hex.is_space
    blockchain_coin.Codec.Hex.fromhex blockchain_coin.Crypto.is_valid_address
    blockchain_coin.Crypto.encode_ascii blockchain_coin.Crypto.sha256_hex_text
    blockchain_coin.Crypto.b64decode blockchain_coin.Crypto.key_address
    blockchain_coin.Crypto.verify_signature blockchain_coin.Json.items_of
    blockchain_coin.Json.canonical_json blockchain_coin.Consensus.Types.outpoint_eq
    blockchain_coin.Consensus.Types.is_coinbase blockchain_coin.Consensus.Types.signing_message
    blockchain_coin.Consensus.Encode.optional_text blockchain_coin.Consensus.Encode.get_text
    blockchain_coin.Consensus.Encode.public_key_bytes blockchain_coin.Consensus.Encode.input_bytes
    blockchain_coin.Consensus.Encode.output_bytes blockchain_coin.Consensus.Encode.transaction_bytes
    blockchain_coin.Consensus.Encode.header_bytes blockchain_coin.Consensus.Encode.txid
    blockchain_coin.Consensus.Encode.block_hash blockchain_coin.Consensus.Utxo.add
    blockchain_coin.Consensus.Utxo.add_entries blockchain_coin.Consensus.Utxo.new_set
    blockchain_coin.Consensus.Utxo.copy blockchain_coin.Consensus.Utxo.spend
    blockchain_coin.Consensus.Utxo.get blockchain_coin.Consensus.Utxo.total
    blockchain_coin.Consensus.State.new_state blockchain_coin.Consensus.State.commit
    blockchain_coin.Consensus.State.validate_version
    blockchain_coin.Consensus.State.validate_each_output
    blockchain_coin.Consensus.State.validate_outputs
    blockchain_coin.Consensus.State.validate_coinbase blockchain_coin.Consensus.State.get_field
    blockchain_coin.Consensus.State.public_key_from_dict blockchain_coin.Consensus.State.witness
    blockchain_coin.Consensus.State.mem blockchain_coin.Consensus.State.spend_all
    blockchain_coin.Consensus.State.validate_input_signature
    blockchain_coin.Consensus.State.validate_inputs blockchain_coin.Consensus.State.validate_spend
    blockchain_coin.Consensus.State.validate_transaction blockchain_coin.Consensus.State.add_outputs
    blockchain_coin.Consensus.State.create_outputs
    blockchain_coin.Consensus.State.transaction_update
    blockchain_coin.Consensus.State.apply_transaction
    blockchain_coin.Consensus.State.coinbase_update
    blockchain_coin.Consensus.State.apply_block_coinbase
    blockchain_coin.Consensus.State.apply_genesis_coinbase
    blockchain_coin.Consensus.Merkle.parent_hash blockchain_coin.Consensus.Merkle.next_layer
    blockchain_coin.Consensus.Merkle.root_loop blockchain_coin.Consensus.Merkle.leaf
    blockchain_coin.Consensus.Merkle.leaves
    blockchain_coin.Consensus.Merkle.calculate_transaction_root
    blockchain_coin.Consensus.Blocks.any_coinbase blockchain_coin.Consensus.Blocks.first_is_coinbase
    blockchain_coin.Consensus.Blocks.is_genesis blockchain_coin.Consensus.Blocks.check_header
    blockchain_coin.Consensus.Blocks.apply_all blockchain_coin.Consensus.Blocks.apply_first
    blockchain_coin.Consensus.Blocks.apply_reward blockchain_coin.Consensus.Blocks.apply_body
    blockchain_coin.Consensus.Blocks.validate_block blockchain_coin.Consensus.Blocks.replay
    blockchain_coin.Consensus.Blocks.rebuild_state_from_blocks blockchain_coin.Shared.◌+ℤ◌
    blockchain_coin.Shared.◌-ℤ◌ blockchain_coin.Shared.sum
created = refl

create_transaction-IsBalanced_example :
    (pos 0 <ℤ pos 30)
    × (pos 0 ≤ℤ pos 5)
    × (is_valid_address other_owner ≡ true)
    × IsBalanced (spendable_outputs owner first_node) (pos 5) spending
create_transaction-IsBalanced_example =
    create_transaction-IsBalanced wallet other_owner (pos 30) (pos 5) first_node spending created
