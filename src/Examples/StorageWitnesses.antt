-- ===== src/Examples/StorageWitnesses.antt =====
-- The theorems of the stores, applied to the outputs, the parameters and the blocks of the small chain.
use blockchain_coin.Shared.{
  ◌≤◌, ◌≡◌, ◌≢◌, refl, true, false, none, some, Option, List, [], ◌∷◌, ℤ, pos, ok, err, lookup,
  is_empty,
}
use blockchain_coin.Text.{Text, codes, text_equality}
use blockchain_coin.Json.{Json}
use blockchain_coin.Consensus.Types.{OutPoint, outpoint_equality}
use blockchain_coin.ForkStore.{StoredBlock, ForkStore}
use blockchain_coin.ForkChoice.{best_tip, best_of, better}
use blockchain_coin.ForkChoice.Heaviest.{best_tip-heaviest}
use blockchain_coin.Storage.Parameters.{
  ChainParameters, parameters_to_dict, Metadata, no_metadata, parameters_missing, parameters_differ,
  Reader, chain_id_of, save_chain_parameters, require_chain_parameters,
}
use blockchain_coin.Storage.Agreed.{require_chain_parameters-saved}
use blockchain_coin.Consensus.Utxo.{entries}
use blockchain_coin.Storage.Index.{
  UtxoIndex, empty_index, all_fit, save_tip_snapshot, load_tip_snapshot,
}
use blockchain_coin.Storage.Snapshots.{Loads, load_tip_snapshot-save_tip_snapshot}
use blockchain_coin.Examples.Ledger.{toy, allocated, first_hash, second_block}
use blockchain_coin.Examples.StoreWitnesses.{first_stored}

abbrev parameters : ChainParameters
parameters = record { difficulty = pos 3; block_subsidy = pos 50; max_money = pos 1000 }

-- Every text reads as these parameters.
abbrev reader : Reader
reader = record {
  json_loads = λ text. some (parameters_to_dict parameters);
  int_of_text = λ text. none;
}

abbrev written : Metadata
written = record {
  chain_parameters = some (codes "{\"block_subsidy\":50,\"difficulty\":3,\"max_money\":1000}");
  chain_id = some (codes "3434343434343434343434343434343434343434343434343434343434343434");
}

saved : save_chain_parameters parameters no_metadata ≡ ok written
unfolding save_chain_parameters chain_id_of parameters_to_dict blockchain_coin.Text.text_eq
    blockchain_coin.Text.starts_with blockchain_coin.Text.text_lt blockchain_coin.Text.join
    blockchain_coin.Codec.Encode.encode_int blockchain_coin.Codec.Encode.encode_uint
    blockchain_coin.Codec.Encode.encode_float blockchain_coin.Codec.Encode.encode_bytes
    blockchain_coin.Codec.Encode.encode_text blockchain_coin.Codec.Encode.encode_hash
    blockchain_coin.Codec.Encode.encode_all blockchain_coin.Codec.Words.be_bytes
    blockchain_coin.Codec.Utf8.encode_char blockchain_coin.Codec.Utf8.encode
    blockchain_coin.Codec.Hex.hex blockchain_coin.Codec.Hex.digit_value
    blockchain_coin.Codec.Hex.is_space blockchain_coin.Codec.Hex.fromhex
    blockchain_coin.Crypto.is_valid_address blockchain_coin.Crypto.encode_ascii
    blockchain_coin.Crypto.sha256_hex_text blockchain_coin.Crypto.b64decode
    blockchain_coin.Crypto.key_address blockchain_coin.Crypto.verify_signature
    blockchain_coin.Json.items_of blockchain_coin.Json.canonical_json
    blockchain_coin.Consensus.Types.outpoint_eq blockchain_coin.Consensus.Types.is_coinbase
    blockchain_coin.Consensus.Types.signing_message blockchain_coin.Consensus.Encode.optional_text
    blockchain_coin.Consensus.Encode.get_text blockchain_coin.Consensus.Encode.public_key_bytes
    blockchain_coin.Consensus.Encode.input_bytes blockchain_coin.Consensus.Encode.output_bytes
    blockchain_coin.Consensus.Encode.transaction_bytes blockchain_coin.Consensus.Encode.header_bytes
    blockchain_coin.Consensus.Encode.txid blockchain_coin.Consensus.Encode.block_hash
    blockchain_coin.Consensus.Utxo.add blockchain_coin.Consensus.Utxo.add_entries
    blockchain_coin.Consensus.Utxo.new_set blockchain_coin.Consensus.Utxo.copy
    blockchain_coin.Consensus.Utxo.spend blockchain_coin.Consensus.Utxo.get
    blockchain_coin.Consensus.Utxo.total blockchain_coin.Consensus.State.new_state
    blockchain_coin.Consensus.State.commit blockchain_coin.Consensus.State.validate_version
    blockchain_coin.Consensus.State.validate_each_output
    blockchain_coin.Consensus.State.validate_outputs
    blockchain_coin.Consensus.State.validate_coinbase blockchain_coin.Consensus.State.get_field
    blockchain_coin.Consensus.State.public_key_from_dict blockchain_coin.Consensus.State.witness
    blockchain_coin.Consensus.State.mem blockchain_coin.Consensus.State.spend_all
    blockchain_coin.Consensus.State.validate_input_signature
    blockchain_coin.Consensus.State.validate_inputs blockchain_coin.Consensus.State.validate_spend
    blockchain_coin.Consensus.State.validate_transaction blockchain_coin.Consensus.State.add_outputs
    blockchain_coin.Consensus.State.create_outputs
    blockchain_coin.Consensus.State.transaction_update
    blockchain_coin.Consensus.State.apply_transaction
    blockchain_coin.Consensus.State.coinbase_update
    blockchain_coin.Consensus.State.apply_block_coinbase
    blockchain_coin.Consensus.State.apply_genesis_coinbase
    blockchain_coin.Consensus.Merkle.parent_hash blockchain_coin.Consensus.Merkle.next_layer
    blockchain_coin.Consensus.Merkle.root_loop blockchain_coin.Consensus.Merkle.leaf
    blockchain_coin.Consensus.Merkle.leaves
    blockchain_coin.Consensus.Merkle.calculate_transaction_root
    blockchain_coin.Consensus.Blocks.any_coinbase blockchain_coin.Consensus.Blocks.first_is_coinbase
    blockchain_coin.Consensus.Blocks.is_genesis blockchain_coin.Consensus.Blocks.check_header
    blockchain_coin.Consensus.Blocks.apply_all blockchain_coin.Consensus.Blocks.apply_first
    blockchain_coin.Consensus.Blocks.apply_reward blockchain_coin.Consensus.Blocks.apply_body
    blockchain_coin.Consensus.Blocks.validate_block blockchain_coin.Consensus.Blocks.replay
    blockchain_coin.Consensus.Blocks.rebuild_state_from_blocks blockchain_coin.Shared.◌+ℤ◌
    blockchain_coin.Shared.◌-ℤ◌ blockchain_coin.Shared.sum
saved = refl

require_chain_parameters-saved_example :
    (require_chain_parameters reader true parameters written ≡ ok written)
    × ((q : ChainParameters)
        → q ≢ parameters
        → require_chain_parameters reader true q written ≡ err parameters_differ)
    × ((q : ChainParameters)
        → require_chain_parameters reader true q no_metadata ≡ err parameters_missing)
require_chain_parameters-saved_example =
    require_chain_parameters-saved reader parameters no_metadata written true refl saved

fitting : all_fit (entries allocated.utxos) ≡ true
unfolding all_fit entries blockchain_coin.Consensus.Utxo.sort_entries
fitting = refl

load_tip_snapshot-save_tip_snapshot_example :
    (index : UtxoIndex) × (save_tip_snapshot first_hash allocated.utxos empty_index ≡ ok index)
    × (is_empty allocated.utxos ≡ true → load_tip_snapshot first_hash index ≡ ok none)
    × (is_empty allocated.utxos ≡ false
        → Loads allocated.utxos (load_tip_snapshot first_hash index))
    × ((other : Text)
        → other ≢ first_hash
        → load_tip_snapshot other index ≡ load_tip_snapshot other empty_index)
load_tip_snapshot-save_tip_snapshot_example =
    load_tip_snapshot-save_tip_snapshot first_hash allocated.utxos empty_index (refl, tt) fitting

abbrev second_stored : StoredBlock
second_stored = record { block = second_block; cumulative_work = 2 }

abbrev two_blocks : ForkStore
two_blocks = (first_hash, first_stored) ∷ (codes "71", second_stored) ∷ []

best_tip-heaviest_example :
    ((hash : Text) × (lookup hash two_blocks ≡ some second_stored))
    × ((hash : Text) (b : StoredBlock)
        → lookup hash two_blocks ≡ some b
        → b.cumulative_work ≤ second_stored.cumulative_work)
unfolding best_tip best_of better blockchain_coin.Text.text_eq
best_tip-heaviest_example = best_tip-heaviest two_blocks second_stored (refl, (refl, tt)) refl
